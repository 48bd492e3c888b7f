-- ===== src/BootMenu/Loop/Ends.antt =====
-- The boot menu ends once nothing is typed any more.
use docker_applications.Common.{
  ℕ, zero, suc, ◌+◌, ◌%◌, ◌^◌, ◌≤◌, ◌<◌, ◌≡◌, refl, ◌⊎◌, inl, inr, Bool, true, false, not, ◌&&◌,
  ◌||◌, Option, none, some, List, [], ◌∷◌, length, ltb, ◌==◌, Bool-cases, arith,
}
use docker_applications.BootMenu.{
  is_timed_out, boot_menu_timeout, Poll, Editor, Read, ends_line, edit, on_input, read_line,
  start_editor, is_ok, exec_line,
}
use docker_applications.BootMenu.Loop.{
  skip_nuls, Menu, buffer_size, prompted, next_millis, after_command, on_line, on_stream, menu_loop,
  show_boot_menu,
}
use docker_applications.Config.{FlashStorage, ConfigState}
use docker_applications.Tracker.Transmit.{Run, done, fault, out_of_fuel}

module _ (end : ℕ) where
  -- A time-out that is over at the end.
  abbrev pub Over : ℕ → Type 0
  Over ts_max = is_timed_out end ts_max ≡ true

  -- A round that the end is at least 30 seconds after.
  abbrev pub Before : Poll → Type 0
  Before p = Over ((p.millis + boot_menu_timeout) % 2 ^ 32)

  abbrev pub last_round : Poll
  last_round = record { millis = end; input = none }

  -- Rounds up to the end: any number with or without input, one without, and two at the end.
  pub data UpToEnd : List Poll → Type 0 where
    silence :
        {t : ℕ}
        → Over ((t + boot_menu_timeout) % 2 ^ 32)
        → UpToEnd (record { millis = t; input = none } ∷ last_round ∷ last_round ∷ [])
    then_round : {p : Poll} → {ps : List Poll} → Before p → UpToEnd ps → UpToEnd (p ∷ ps)

  data AtEnd : List Poll → Type 0 where
    one_left : AtEnd (last_round ∷ [])
    two_left : AtEnd (last_round ∷ last_round ∷ [])

  -- How a line ends: with as many rounds left, or at the end and without a text.
  abbrev Ended : ℕ → Run Read → Type 0
  Ended n (done r) =
      Over r.ts_max × ((UpToEnd r.rest × (length r.rest ≤ n)) ⊎ ((r.text ≡ none) × AtEnd r.rest))
  Ended n _ = zero ≡ 1

  on_input-Ended :
      (n size millis : ℕ) (again : Editor → Run Read) (rest : List Poll) (e : Editor) (i : Option ℕ)
      → Over ((millis + boot_menu_timeout) % 2 ^ 32)
      → UpToEnd rest
      → length rest ≤ n
      → Over e.ts_max
      → ((e' : Editor) → Over e'.ts_max → Ended n (again e'))
      → Ended n (on_input size millis again rest e i)
  unfolding edit
  on_input-Ended n size millis again rest e none before up h over later = later e over
  on_input-Ended n size millis again rest e (some c) before up h over later =
      elim (Bool-cases (c == 0)) [
        | inl nul ↦ rw nul (later e over)
        | inr other ↦ rw other (elim (Bool-cases (c == 10)) [
          | inl feed ↦ rw feed (before, inl (up, h))
          | inr edits ↦ rw edits (later (edit size millis c e) before)
        ])
      ]

  read_line-at_end :
      (n size : ℕ) (e : Editor)
      → Over e.ts_max
      → Ended n (read_line size (last_round ∷ last_round ∷ []) e)
  unfolding read_line
  read_line-at_end n size e over = rw over (over, inr (refl, two_left))

  read_line-Ended :
      (n size : ℕ) (ps : List Poll) (e : Editor)
      → UpToEnd ps
      → Over e.ts_max
      → length ps ≤ n
      → Ended n (read_line size ps e)
  unfolding read_line
  read_line-Ended n size [] e up over h = elim up [ ]
  read_line-Ended n size (p ∷ ps) e (silence before) over h =
      elim (Bool-cases (is_timed_out p.millis e.ts_max)) [
        | inl late ↦ rw late (over, inl (silence before, h))
        | inr early ↦ rw early (elim (Bool-cases (e.seen_cr && ends_line p e.ts_wait_lf)) [
          | inl ends ↦ rw ends (over, inl (silence before, h))
          | inr goes_on ↦ rw goes_on (read_line-at_end n size e over)
        ])
      ]
  read_line-Ended n size (p ∷ ps) e (then_round before up) over h =
      elim (Bool-cases (is_timed_out p.millis e.ts_max)) [
        | inl late ↦ rw late (over, inl (then_round before up, h))
        | inr early ↦ rw early (elim (Bool-cases (e.seen_cr && ends_line p e.ts_wait_lf)) [
          | inl ends ↦ rw ends (over, inl (then_round before up, h))
          | inr goes_on ↦ rw goes_on (
              on_input-Ended n size p.millis (λ e'. read_line size ps e') ps e p.input before up
                (omega arith) over
                (λ e' over'. read_line-Ended n size ps e' up over' (omega arith)))
        ])
      ]

  -- What is left to read after NUL bytes.
  skip_nuls-UpToEnd :
      (ps : List Poll) → UpToEnd ps → UpToEnd (skip_nuls ps) × (length (skip_nuls ps) ≤ length ps)
  unfolding skip_nuls
  skip_nuls-UpToEnd [] up = elim up [ ]
  skip_nuls-UpToEnd (p ∷ ps) (silence before) = (silence before, omega arith)
  skip_nuls-UpToEnd (p ∷ ps) (then_round before up) =
      elim p.input
        as (λ i.
          UpToEnd (elim i [ none ↦ p ∷ ps | some zero ↦ skip_nuls ps | some (suc c) ↦ p ∷ ps ])
          × (length (elim i [ none ↦ p ∷ ps | some zero ↦ skip_nuls ps | some (suc c) ↦ p ∷ ps ])
              ≤ suc (length ps))) [
                | none ↦ (then_round before up, omega arith)
                | some zero ↦ let less = skip_nuls-UpToEnd ps up in (less.0, omega (arith, less.1))
                | some (suc c) ↦ (then_round before up, omega arith)
              ]

  module _ (fs : FlashStorage) (reset_callback : Option (ConfigState fs → ConfigState fs)) where
    abbrev Ends : Run (ConfigState fs) → Type 0
    Ends run = (s : ConfigState fs) × (run ≡ done s)

    -- What the rounds that follow do, with at most `n` of them.
    abbrev EndAgain : ℕ → (List Poll → Menu → ConfigState fs → Run (ConfigState fs)) → Type 0
    EndAgain n again =
        (ps : List Poll) (v : Menu) (s : ConfigState fs)
        → (UpToEnd ps × (length ps ≤ n)) ⊎ AtEnd ps
        → Over v.ts_max
        → Ends (again ps v s)

    module _ (n : ℕ) (again : List Poll → Menu → ConfigState fs → Run (ConfigState fs))
        (later : EndAgain n again) where
      next-Over :
          (ps : List Poll)
          → UpToEnd ps
          → (now : ℕ) × (next_millis ps ≡ some now) × Over ((now + boot_menu_timeout) % 2 ^ 32)
      next-Over [] up = elim up [ ]
      next-Over (p ∷ ps) (silence before) = (p.millis, refl, before)
      next-Over (p ∷ ps) (then_round before up) = (p.millis, refl, before)

      after_command-Ends :
          (w : Menu) (rest : List Poll) (r : Bool × ConfigState fs)
          → UpToEnd rest
          → length rest ≤ n
          → Over w.ts_max
          → Ends (after_command fs reset_callback again w rest r)
      after_command-Ends w rest (false, s) up h over = later rest w s (inl (up, h)) over
      after_command-Ends w rest (true, s) up h over =
          let next = next-Over rest up in
          rw (after_command, next.1)
            (later rest (record w { ts_max = (next.0 + boot_menu_timeout) % 2 ^ 32 }) s
              (inl (up, h)) next.2)

      text-Ends :
          (v : Menu) (s : ConfigState fs) (text : Option (List ℕ)) (ts_max : ℕ) (rest : List Poll)
          → Over ts_max
          → (UpToEnd rest × (length rest ≤ n)) ⊎ ((text ≡ none) × AtEnd rest)
          → Ends (
              on_line fs reset_callback again v s
                (done (record { text = text; ts_max = ts_max; rest = rest })))
      unfolding on_line
      text-Ends v s none ts_max rest over (inl more) =
          later rest (record v { ts_max = ts_max }) s (inl more) over
      text-Ends v s none ts_max rest over (inr at) =
          later rest (record v { ts_max = ts_max }) s (inr at.1) over
      text-Ends v s (some line) ts_max rest over (inr at) = absurd (ground (arith, at.0))
      text-Ends v s (some line) ts_max rest over (inl more) =
          let w : Menu = record v { ts_max = ts_max; need_prompt = true } in
          elim (Bool-cases (length line == 0)) [
            | inl empty ↦ rw empty (later rest w s (inl more) over)
            | inr full ↦ rw full (elim (Bool-cases (is_ok fs reset_callback line)) [
              | inl ok ↦ rw ok (s, refl)
              | inr other ↦ rw other (
                  after_command-Ends w rest (exec_line fs reset_callback line s) more.0 more.1 over)
            ])
          ]

      on_line-Ends :
          (v : Menu) (s : ConfigState fs) (run : Run Read)
          → Ended n run
          → Ends (on_line fs reset_callback again v s run)
      unfolding on_line
      on_line-Ends v s fault ended = absurd (omega arith)
      on_line-Ends v s out_of_fuel ended = absurd (omega arith)
      on_line-Ends v s (done r) ended = text-Ends v s r.text r.ts_max r.rest ended.0 ended.1

      stream-Ends :
          (v : Menu) (s : ConfigState fs) (ps : List Poll)
          → UpToEnd ps
          → length ps ≤ n
          → Over v.ts_max
          → Ends (on_stream fs reset_callback again v s ps)
      stream-Ends v s [] up h over = elim up [ ]
      stream-Ends v s (p ∷ ps) (silence before) h over = later ps v s (inr two_left) over
      stream-Ends v s (p ∷ ps) (then_round before up) h over =
          elim p.input
            as (λ i. Ends (elim i [
              | none ↦ again ps v s
              | some c ↦
                  on_line fs reset_callback again v s
                    (read_line buffer_size (p ∷ ps) (start_editor v.ts_max))
            ])) [
              | none ↦ later ps v s (inl (up, omega arith)) over
              | some c ↦ on_line-Ends v s (read_line buffer_size (p ∷ ps) (start_editor v.ts_max)) (
                  read_line-Ended n buffer_size (p ∷ ps) (start_editor v.ts_max)
                    (then_round before up) over h)
            ]

    prompted-Over : (v : Menu) → Over v.ts_max → Over (prompted v).ts_max
    prompted-Over v over = elim (Bool-cases v.need_prompt) [
      | inl prompt ↦ rw prompt over
      | inr no_prompt ↦ rw no_prompt over
    ]

    last_round-Ends :
        (fuel : ℕ) (ps : List Poll) (v : Menu) (s : ConfigState fs)
        → Over v.ts_max
        → Ends (menu_loop fs reset_callback (suc fuel) (last_round ∷ ps) v s)
    unfolding menu_loop
    last_round-Ends fuel ps v s over = rw over (s, refl)

    some_rounds : (ps : List Poll) → UpToEnd ps → 0 < length ps
    some_rounds [] up = elim up [ ]
    some_rounds (p ∷ ps) up = omega arith

    menu_loop-Ends :
        (fuel : ℕ) (ps : List Poll) (v : Menu) (s : ConfigState fs)
        → (UpToEnd ps × (length ps ≤ fuel)) ⊎ AtEnd ps
        → 0 < fuel
        → Over v.ts_max
        → Ends (menu_loop fs reset_callback fuel ps v s)
    unfolding menu_loop
    menu_loop-Ends zero ps v s up h over = absurd (omega arith)
    menu_loop-Ends (suc fuel) ps v s (inr one_left) h over = last_round-Ends fuel [] v s over
    menu_loop-Ends (suc fuel) ps v s (inr two_left) h over =
        last_round-Ends fuel (last_round ∷ []) v s over
    menu_loop-Ends (suc fuel) [] v s (inl up) h over = elim up.0 [ ]
    menu_loop-Ends (suc fuel) (p ∷ ps) v s (inl (silence before, long)) h over =
        elim (Bool-cases (is_timed_out p.millis v.ts_max || not (ltb v.nr_prompts 250))) [
          | inl stops ↦ rw stops (s, refl)
          | inr goes_on ↦ rw goes_on (
              menu_loop-Ends fuel (last_round ∷ []) (prompted v) s (inr one_left) (omega arith)
                (prompted-Over v over))
        ]
    menu_loop-Ends (suc fuel) (p ∷ ps) v s (inl (then_round before up, long)) h over =
        elim (Bool-cases (is_timed_out p.millis v.ts_max || not (ltb v.nr_prompts 250))) [
          | inl stops ↦ rw stops (s, refl)
          | inr goes_on ↦
              let less = skip_nuls-UpToEnd ps up in
              rw goes_on (
                stream-Ends fuel (λ ps' v' s'. menu_loop fs reset_callback fuel ps' v' s')
                  (λ ps' v' s' up' over'.
                    menu_loop-Ends fuel ps' v' s' up' (omega (arith, some_rounds ps up)) over')
                  (prompted v) s (skip_nuls ps) less.0 (omega (arith, less.1))
                  (prompted-Over v over))
        ]

    -- Whatever is typed, in any number of rounds and at any times: if a round without input follows,
    -- and then two at a time that is at least 30 seconds after the start and after every round
    -- before, the menu ends.
    pub show_boot_menu-Ends :
        (start : Poll) (ps : List Poll) (s : ConfigState fs)
        → Before start
        → UpToEnd ps
        → (after : ConfigState fs) × (show_boot_menu fs reset_callback (start ∷ ps) s ≡ done after)
    unfolding show_boot_menu
    show_boot_menu-Ends start ps s before up =
        menu_loop-Ends (length ps) ps
          (record {
            ts_max = (start.millis + boot_menu_timeout) % 2 ^ 32;
            need_prompt = true;
            nr_prompts = 0;
          })
          s (inl (up, omega arith)) (some_rounds ps up) before
