-- ===== src/Ublox/Receiver/Collect.antt =====
-- The solutions among the bytes that the receiver sends, apart from what is done with them.
use docker_applications.Common.{
  ℕ, ◌≡◌, refl, sym, ap, ◌∙◌, ◌||◌, Option, none, some, ◌>>=◌, List, [], ◌∷◌, ◌++◌, ◌==◌,
  if◌then◌else◌, Bool-cases, inl, inr,
}
use docker_applications.Tracker.NavPvt.{NavPvt}
use docker_applications.Ublox.{UBlox, Answer, packet, negated, process}
use docker_applications.Ublox.Receiver.{nav_pvt, dispatch_message, get_periodic}

-- The solution that an answer of the parser stands for, if it does for one.
abbrev pub solution_in : Answer → UBlox → Option NavPvt
solution_in (negated n) u = none
solution_in (packet id) u =
    if id == 0x0107
    then (if u.payload_length == 84 || u.payload_length == 92
        then some (nav_pvt u.payload_buffer)
        else none)
    else none

-- The function that only keeps them.
abbrev pub collect : NavPvt → List NavPvt → Option (List NavPvt)
collect v vs = some (vs ++ (v ∷ []))

bind_none :
    {A B : Type 0} (o : Option A) (f : A → Option B)
    → ((a : A) → f a ≡ none)
    → (o >>= λ a. f a) ≡ none
bind_none none f h = refl
bind_none (some a) f h = h a

bind_some : {S : Type 0} (o : Option S) → o ≡ (o >>= λ t. some t)
bind_some none = refl
bind_some (some s) = refl

bind_assoc :
    {A B C : Type 0} (o : Option A) (f : A → Option B) (g : B → Option C)
    → (o >>= λ a. f a >>= λ b. g b) ≡ ((o >>= λ a. f a) >>= λ b. g b)
bind_assoc none f g = refl
bind_assoc (some a) f g = refl

module _ {S : Type 0} (f : NavPvt → S → Option S) where
  abbrev given : Option NavPvt → S → Option S
  given none s = some s
  given (some v) s = f v s

  -- Solutions that are given to a function one after the other.
  abbrev pub deliver_all : List NavPvt → S → Option S
  deliver_all [] s = some s
  deliver_all (v ∷ vs) s = f v s >>= λ t. deliver_all vs t

  deliver_all-append :
      (vs : List NavPvt) (v : NavPvt) (s : S)
      → deliver_all (vs ++ (v ∷ [])) s ≡ (deliver_all vs s >>= λ t. f v t)
  deliver_all-append [] v s = sym (bind_some (f v s))
  deliver_all-append (w ∷ vs) v s =
      elim (f w s)
        as (λ o.
          (o >>= λ t. deliver_all (vs ++ (v ∷ [])) t)
          ≡ ((o >>= λ t. deliver_all vs t) >>= λ t. f v t)) [
            | none ↦ refl
            | some t ↦ deliver_all-append vs v t
          ]

  dispatch_message-solution :
      (a : Answer) (u : UBlox) (s : S) → dispatch_message (some f) a u s ≡ given (solution_in a u) s
  unfolding dispatch_message
  dispatch_message-solution (negated n) u s = refl
  dispatch_message-solution (packet id) u s = elim (Bool-cases (id == 0x0107)) [
    | inl is_solution ↦
        rw is_solution (elim (Bool-cases (u.payload_length == 84 || u.payload_length == 92)) [
          | inl known ↦ rw known refl
          | inr unknown ↦ rw unknown refl
        ])
    | inr other ↦ rw other refl
  ]

module _ {S : Type 0} (f : NavPvt → S → Option S) where
  -- What a byte leaves to do, for the collected solutions and for those that were given before.
  solution_given :
      (found : Option NavPvt) (acc : List NavPvt) (s : S)
      → (acc' : List NavPvt) × (given collect found acc ≡ some acc')
        × ((deliver_all f acc s >>= λ t. given f found t) ≡ deliver_all f acc' s)
  solution_given none acc s = (acc, refl, sym (bind_some (deliver_all f acc s)))
  solution_given (some v) acc s = (acc ++ (v ∷ []), refl, sym (deliver_all-append f acc v s))

  dispatched :
      (a : Answer) (u : UBlox) (o : Option S)
      → (o >>= λ t. dispatch_message (some f) a u t) ≡ (o >>= λ t. given f (solution_in a u) t)
  dispatched a u none = refl
  dispatched a u (some t) = dispatch_message-solution f a u t

  -- The rest of a run, with the solutions so far.
  abbrev Collected : List ℕ → Type 0
  Collected cs =
      (u : UBlox) (acc : List NavPvt) (s : S)
      → (deliver_all f acc s >>= λ t. get_periodic (some f) cs u t)
        ≡ (get_periodic (some collect) cs u acc >>= λ r. deliver_all f r.1 s >>= λ t. some (r.0, t))

  byte-Collected :
      (cs : List ℕ) (acc : List NavPvt) (s : S)
      → Collected cs
      → (read : Option (UBlox × Answer))
      → (deliver_all f acc s >>= λ t. read >>= λ r.
          dispatch_message (some f) r.1 r.0 t >>= λ t'. get_periodic (some f) cs r.0 t')
        ≡ ((read >>= λ r. dispatch_message (some collect) r.1 r.0 acc >>= λ acc'.
              get_periodic (some collect) cs r.0 acc')
            >>= λ r. deliver_all f r.1 s >>= λ t. some (r.0, t))
  byte-Collected cs acc s later none = bind_none (deliver_all f acc s) _ (λ t. refl)
  byte-Collected cs acc s later (some (v, a)) =
      let next = solution_given (solution_in a v) acc s in
      bind_assoc (deliver_all f acc s) (λ t. dispatch_message (some f) a v t)
        (λ t. get_periodic (some f) cs v t)
      ∙ ap (λ o. o >>= λ t. get_periodic (some f) cs v t)
          (dispatched a v (deliver_all f acc s) ∙ next.2)
      ∙ later v next.0 s
      ∙ sym (
          ap
            (λ o. (o >>= λ acc'. get_periodic (some collect) cs v acc') >>= λ r.
              deliver_all f r.1 s >>= λ t. some (r.0, t))
            (dispatch_message-solution collect a v acc ∙ next.1))

  bytes-Collected : (cs : List ℕ) → Collected cs
  unfolding get_periodic
  bytes-Collected [] u acc s = refl
  bytes-Collected (c ∷ cs) u acc s =
      byte-Collected cs acc s (λ u' acc' s'. bytes-Collected cs u' acc' s') (process c u)

  -- Whatever bytes are read, and in whatever state the parser is: to give each solution to a function
  -- as soon as it is complete, as `GetPeriodic` does, has the same result as to collect the
  -- solutions first and then to give them to the function one after the other, faults included.
  pub get_periodic-collect :
      (cs : List ℕ) (u : UBlox) (s : S)
      → get_periodic (some f) cs u s
        ≡ (get_periodic (some collect) cs u [] >>= λ r. deliver_all f r.1 s >>= λ t. some (r.0, t))
  get_periodic-collect cs u s = bytes-Collected cs u [] s
