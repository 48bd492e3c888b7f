-- ===== src/BootMenu/Loop/Session.antt =====
-- A session of the boot menu: lines that are typed one after the other, and then "ok".
use docker_applications.Common.{
  ℕ, zero, suc, ◌+◌, ◌%◌, ◌^◌, ◌≤◌, ◌<◌, ◌≡◌, refl, ap, ◌∙◌, Bool, true, false, Option, none, some,
  List, [], ◌∷◌, length, take, if◌then◌else◌, arith, lt→ltb, ne→==,
}
use docker_applications.BootMenu.{
  is_timed_out, boot_menu_timeout, Poll, read_line, start_editor, is_ok, exec_line,
}
use docker_applications.BootMenu.Typing.{Shown, typed, read_line-typed, just_extended}
use docker_applications.BootMenu.Loop.{
  skip_nuls, Menu, buffer_size, after_command, on_line, on_stream, menu_loop, show_boot_menu,
}
use docker_applications.Config.{FlashStorage, ConfigState}
use docker_applications.Tracker.Transmit.{Run, done}

-- A line and the time at which it is typed.
pub record Line : Type 0 where
  pub millis : ℕ
  pub text : List ℕ

-- The rounds of lines: one for the menu's test of the time, one for each character, and one for the
-- line feed.
abbrev pub rounds_of : List Line → List Poll → List Poll
rounds_of [] rest = rest
rounds_of (l ∷ ls) rest =
    record { millis = l.millis; input = none }
    ∷ typed l.millis l.text (record { millis = l.millis; input = some 10 } ∷ rounds_of ls rest)

take-all : (n : ℕ) (cs : List ℕ) → length cs ≤ n → take n cs ≡ cs
take-all zero [] h = refl
take-all zero (c ∷ cs) h = absurd (omega arith)
take-all (suc n) [] h = refl
take-all (suc n) (c ∷ cs) h = ap (λ t. c ∷ t) (take-all n cs (omega arith))

-- A line that is typed in time: not empty, of characters that can be shown, and with room for all of
-- them.
pub record IsTyped (ts_max : ℕ) (l : Line) : Type 0 where
  pub small : l.millis < 2 ^ 32
  pub in_time : is_timed_out l.millis ts_max ≡ false
  pub shown : Shown l.text
  pub not_empty : 0 < length l.text
  pub room : length l.text ≤ 200

module _ (fs : FlashStorage) (reset_callback : Option (ConfigState fs → ConfigState fs)) where
  -- The menu after a line was read.
  abbrev read_menu : Menu → ℕ → Menu
  read_menu v millis = record v {
    ts_max = (millis + boot_menu_timeout) % 2 ^ 32;
    need_prompt = true;
    nr_prompts = v.nr_prompts + 1;
  }

  module _ (again : List Poll → Menu → ConfigState fs → Run (ConfigState fs)) where
    -- The menu looks at the stream when the first character waits.
    stream_waits :
        (m c : ℕ) (cs : List ℕ) (tail : List Poll) (v : Menu) (s : ConfigState fs)
        → 0x20 ≤ c
        → on_stream fs reset_callback again v s (skip_nuls (typed m (c ∷ cs) tail))
          ≡ on_line fs reset_callback again v s
              (read_line buffer_size (typed m (c ∷ cs) tail) (start_editor v.ts_max))
    unfolding skip_nuls
    stream_waits m zero cs tail v s h = absurd (omega arith)
    stream_waits m (suc c) cs tail v s h = refl

    line_read :
        (text : List ℕ) (ts_max : ℕ) (rest : List Poll) (v : Menu) (s : ConfigState fs)
        → 0 < length text
        → on_line fs reset_callback again v s
            (done (record { text = some text; ts_max = ts_max; rest = rest }))
          ≡ (if is_ok fs reset_callback text
              then done s
              else after_command fs reset_callback again
                  (record v { ts_max = ts_max; need_prompt = true })
                  rest
                  (exec_line fs reset_callback text s))
    unfolding on_line
    line_read text ts_max rest v s h = rw (ne→== (length text) 0 (omega arith)) refl

    line_typed :
        (m : ℕ) (text : List ℕ) (rest : List Poll) (v : Menu) (s : ConfigState fs)
        → IsTyped v.ts_max (record { millis = m; text = text })
        → on_stream fs reset_callback again v s
            (skip_nuls (typed m text (record { millis = m; input = some 10 } ∷ rest)))
          ≡ (if is_ok fs reset_callback text
              then done s
              else after_command fs reset_callback again
                  (record v { ts_max = (m + boot_menu_timeout) % 2 ^ 32; need_prompt = true })
                  rest
                  (exec_line fs reset_callback text s))
    line_typed m [] rest v s t = absurd (omega (arith, t.not_empty))
    line_typed m (c ∷ cs) rest v s t =
        stream_waits m c cs (record { millis = m; input = some 10 } ∷ rest) v s t.shown.0.0
        ∙ ap (λ r. on_line fs reset_callback again v s r)
            (read_line-typed buffer_size m (c ∷ cs) rest v.ts_max t.small t.in_time t.shown)
        ∙ ap
            (λ text. on_line fs reset_callback again v s (
              done (record {
                text = some text;
                ts_max = (m + boot_menu_timeout) % 2 ^ 32;
                rest = rest;
              })))
            (take-all 200 (c ∷ cs) t.room)
        ∙ line_read (c ∷ cs) ((m + boot_menu_timeout) % 2 ^ 32) rest v s t.not_empty

  pub line_round :
      (fuel m : ℕ) (text : List ℕ) (rest : List Poll) (ts_max n : ℕ) (s : ConfigState fs)
      → IsTyped ts_max (record { millis = m; text = text })
      → n < 250
      → menu_loop fs reset_callback
          (suc fuel)
          (record { millis = m; input = none }
            ∷ typed m text (record { millis = m; input = some 10 } ∷ rest))
          (record { ts_max = ts_max; need_prompt = true; nr_prompts = n })
          s
        ≡ (if is_ok fs reset_callback text
            then done s
            else after_command fs reset_callback
                (λ ps' v' s'. menu_loop fs reset_callback fuel ps' v' s')
                (record {
                  ts_max = (m + boot_menu_timeout) % 2 ^ 32;
                  need_prompt = true;
                  nr_prompts = n + 1;
                })
                rest
                (exec_line fs reset_callback text s))
  unfolding menu_loop
  line_round fuel m text rest ts_max n s t h =
      rw (t.in_time, lt→ltb n 250 h)
        (line_typed (λ ps' v' s'. menu_loop fs reset_callback fuel ps' v' s') m text rest
          (record { ts_max = ts_max; need_prompt = false; nr_prompts = n + 1 }) s t)

  -- The commands of the lines, one after the other.
  abbrev pub run_lines : List Line → ConfigState fs → ConfigState fs
  run_lines [] s = s
  run_lines (l ∷ ls) s = run_lines ls (exec_line fs reset_callback l.text s).1

  -- Lines that are typed in time, each within 30 seconds of the one before, none of which is "ok".
  abbrev pub AreTyped : ℕ → List Line → Type 0
  AreTyped ts_max [] = Unit
  AreTyped ts_max (l ∷ ls) =
      (IsTyped ts_max l × (is_ok fs reset_callback l.text ≡ false))
      × AreTyped ((l.millis + boot_menu_timeout) % 2 ^ 32) ls

  -- The time-out after the last line.
  abbrev pub ts_max_after : ℕ → List Line → ℕ
  ts_max_after ts_max [] = ts_max
  ts_max_after ts_max (l ∷ ls) = ts_max_after ((l.millis + boot_menu_timeout) % 2 ^ 32) ls

  retimed :
      (ts_max after : ℕ) (l : Line)
      → is_timed_out l.millis after ≡ false
      → IsTyped ts_max l
      → IsTyped after l
  retimed ts_max after l early t = record {
    small = t.small;
    in_time = early;
    shown = t.shown;
    not_empty = t.not_empty;
    room = t.room;
  }

  -- Whether or not the line was a command, the next one is in time.
  resumed :
      (again : List Poll → Menu → ConfigState fs → Run (ConfigState fs))
      → (w : Menu) (l : Line) (ls : List Line) (rest : List Poll) (r : Bool × ConfigState fs)
      → IsTyped w.ts_max l
      → (after : ℕ) × (after_command fs reset_callback again w (rounds_of (l ∷ ls) rest) r
          ≡ again (rounds_of (l ∷ ls) rest) (record w { ts_max = after }) r.1)
        × IsTyped after l
  resumed again w l ls rest (false, s) t = (w.ts_max, refl, t)
  resumed again w l ls rest (true, s) t = (
    (l.millis + boot_menu_timeout) % 2 ^ 32,
    refl,
    retimed w.ts_max ((l.millis + boot_menu_timeout) % 2 ^ 32) l (just_extended l.millis t.small) t,
  )

  session_from :
      (ls : List Line) (ok : Line) (rest : List Poll) (fuel ts_max n : ℕ) (s : ConfigState fs)
      → AreTyped ts_max ls
      → IsTyped (ts_max_after ts_max ls) ok
      → is_ok fs reset_callback ok.text ≡ true
      → length ls < fuel
      → n + length ls < 250
      → menu_loop fs reset_callback fuel
          (rounds_of ls (rounds_of (ok ∷ []) rest))
          (record { ts_max = ts_max; need_prompt = true; nr_prompts = n })
          s
        ≡ done (run_lines ls s)
  session_from ls ok rest zero ts_max n s ts t e hf hn = absurd (omega arith)
  session_from [] ok rest (suc fuel) ts_max n s ts t e hf hn =
      line_round fuel ok.millis ok.text rest ts_max n s t (omega arith) ∙ rw e refl
  session_from (l ∷ []) ok rest (suc fuel) ts_max n s ts t e hf hn =
      let w : Menu = record {
        ts_max = (l.millis + boot_menu_timeout) % 2 ^ 32;
        need_prompt = true;
        nr_prompts = n + 1;
      } in
      let s' = exec_line fs reset_callback l.text s in
      let next =
        resumed (λ ps' v' s'. menu_loop fs reset_callback fuel ps' v' s') w ok [] rest s' t in
      line_round fuel l.millis l.text (rounds_of (ok ∷ []) rest) ts_max n s ts.0.0 (omega arith)
      ∙ rw ts.0.1 next.1
      ∙ session_from [] ok rest fuel next.0 (n + 1) s'.1 tt next.2 e (omega arith) (omega arith)
  session_from (l ∷ l' ∷ ls) ok rest (suc fuel) ts_max n s ts t e hf hn =
      let w : Menu = record {
        ts_max = (l.millis + boot_menu_timeout) % 2 ^ 32;
        need_prompt = true;
        nr_prompts = n + 1;
      } in
      let s' = exec_line fs reset_callback l.text s in
      let next =
        resumed (λ ps' v' s'. menu_loop fs reset_callback fuel ps' v' s') w l' ls
          (rounds_of (ok ∷ []) rest) s' ts.1.0.0 in
      line_round fuel l.millis l.text (rounds_of (l' ∷ ls) (rounds_of (ok ∷ []) rest)) ts_max n s
        ts.0.0 (omega arith)
      ∙ rw ts.0.1 next.1
      ∙ session_from (l' ∷ ls) ok rest fuel next.0 (n + 1) s'.1 ((next.2, ts.1.0.1), ts.1.1) t e
          (omega arith) (omega arith)

  length-typed : (m : ℕ) (cs : List ℕ) (rest : List Poll) → length rest ≤ length (typed m cs rest)
  length-typed m [] rest = omega arith
  length-typed m (c ∷ cs) rest = omega (arith, length-typed m cs rest)

  length-rounds_of :
      (ls : List Line) (rest : List Poll) → length ls + length rest ≤ length (rounds_of ls rest)
  length-rounds_of [] rest = omega arith
  length-rounds_of (l ∷ ls) rest = omega (
    arith,
    length-rounds_of ls rest,
    length-typed l.millis l.text
        (record { millis = l.millis; input = some 10 } ∷ rounds_of ls rest),
  )

  -- Up to 249 lines that are typed in time, each within 30 seconds of the one before, not empty, of
  -- at most 200 characters that can be shown, and none of which is "ok", and then an "ok" in time:
  -- the menu ends and leaves the configuration that the commands of the lines give, one after the
  -- other, whether or not each of them is a command.
  pub show_boot_menu-session :
      (start : Poll) (ls : List Line) (ok : Line) (rest : List Poll) (s : ConfigState fs)
      → AreTyped ((start.millis + boot_menu_timeout) % 2 ^ 32) ls
      → IsTyped (ts_max_after ((start.millis + boot_menu_timeout) % 2 ^ 32) ls) ok
      → is_ok fs reset_callback ok.text ≡ true
      → length ls < 250
      → show_boot_menu fs reset_callback (start ∷ rounds_of ls (rounds_of (ok ∷ []) rest)) s
        ≡ done (run_lines ls s)
  unfolding show_boot_menu
  show_boot_menu-session start ls ok rest s ts t e h =
      session_from ls ok rest (length (rounds_of ls (rounds_of (ok ∷ []) rest)))
        ((start.millis + boot_menu_timeout) % 2 ^ 32) 0 s ts t e
        (omega
          (arith, length-rounds_of ls (rounds_of (ok ∷ []) rest), length-rounds_of (ok ∷ []) rest))
        (omega arith)
