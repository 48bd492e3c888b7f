-- ===== src/Switch/Debounce.antt =====
-- When the debounced state of a switch changes, and when that is reported.
use docker_applications.Common.{
  ℕ, zero, suc, ◌+◌, ◌-◌, ◌<◌, ◌≡◌, ◌≢◌, refl, false, not, some, leb, Bool-cases, inl, inr, eq→==,
  ne→==, ◌==◌, arith,
}
use docker_applications.Switch.{Switch, debounce_count, update, is_changed}

unfoldable pub updates : ℕ → ℕ → Switch → Switch
updates zero level s = s
updates (suc n) level s = updates n level (update level s)

gt→leb : (a : ℕ) → a < 3 → leb 3 a ≡ false
gt→leb a h = ground arith

-- A reading that differs from the state counts; one that does not takes one back.
update_differs :
    (level pin : ℕ) (s : Switch)
    → s.input_pin ≡ some pin
    → level ≢ s.current_state
    → s.counter < 2
    → update level s ≡ record s { reading = level; counter = s.counter + 1 }
unfolding update
update_differs level pin s hp ne h =
    rw (hp, ne→== level s.current_state ne, gt→leb (s.counter + 1) (omega arith))

update_third :
    (level pin : ℕ) (s : Switch)
    → s.input_pin ≡ some pin
    → level ≢ s.current_state
    → s.counter ≡ 2
    → update level s ≡ record s { reading = level; counter = 0; current_state = level }
unfolding update
update_third level pin s hp ne h = rw (hp, ne→== level s.current_state ne, h)

update_agrees :
    (pin : ℕ) (s : Switch)
    → s.input_pin ≡ some pin
    → s.counter < 3
    → update s.current_state s ≡ record s { reading = s.current_state; counter = s.counter - 1 }
unfolding update
update_agrees pin s hp h = ground arith

stays :
    (n level pin : ℕ) (s : Switch)
    → s.input_pin ≡ some pin
    → level ≢ s.current_state
    → s.counter + n < debounce_count
    → ((updates n level s).current_state ≡ s.current_state)
      × ((updates n level s).counter ≡ s.counter + n)
unfolding updates
stays zero level pin s hp ne h = (refl, omega arith)
stays (suc n) level pin s hp ne h =
    rw (updates, update_differs level pin s hp ne (omega arith))
      (let next : Switch = record s { reading = level; counter = s.counter + 1 } in
        let (same, more) = stays n level pin next hp ne (omega arith) in
        (same, omega (arith, more)))

settles :
    (n level pin : ℕ) (s : Switch)
    → s.input_pin ≡ some pin
    → level ≢ s.current_state
    → s.counter + suc n ≡ debounce_count
    → updates (suc n) level s ≡ record s { reading = level; counter = 0; current_state = level }
unfolding updates
settles zero level pin s hp ne h = update_third level pin s hp ne (omega arith)
settles (suc n) level pin s hp ne h =
    rw (updates, update_differs level pin s hp ne (omega arith))
      (settles n level pin (record s { reading = level; counter = s.counter + 1 }) hp ne
        (omega arith))

recovers :
    (n pin : ℕ) (s : Switch)
    → s.input_pin ≡ some pin
    → s.counter < debounce_count
    → ((updates n s.current_state s).current_state ≡ s.current_state)
      × ((updates n s.current_state s).counter ≡ s.counter - n)
unfolding updates
recovers zero pin s hp h = (refl, omega arith)
recovers (suc n) pin s hp h =
    rw (updates, update_agrees pin s hp h)
      (let next : Switch = record s { reading = s.current_state; counter = s.counter - 1 } in
        let (same, fewer) = recovers n pin next hp (omega arith) in (same, omega (arith, fewer)))

-- For a connected switch: readings of another level leave the state as long as they are, with
-- those counted before, fewer than three, and the third changes the state to that level; readings
-- of the state's own level leave it, and each takes one of those counted back.
pub updates_lem :
    (n level pin : ℕ) (s : Switch)
    → s.input_pin ≡ some pin
    → s.counter < debounce_count
    → level ≢ s.current_state
    → (s.counter + n < debounce_count
        → ((updates n level s).current_state ≡ s.current_state)
          × ((updates n level s).counter ≡ s.counter + n))
      × (s.counter + suc n ≡ debounce_count
          → updates (suc n) level s
            ≡ record s { reading = level; counter = 0; current_state = level })
      × ((updates n s.current_state s).current_state ≡ s.current_state)
      × ((updates n s.current_state s).counter ≡ s.counter - n)
updates_lem n level pin s hp hc ne =
    let (same, fewer) = recovers n pin s hp hc in
    (λ h. stays n level pin s hp ne h, λ h. settles n level pin s hp ne h, same, fewer)

-- A change of the state is reported once: `isChanged` says whether the state differs from the one
-- it saw before, and a second call without an update between says no.
pub is_changed-is_changed :
    (s : Switch)
    → ((is_changed s).0 ≡ not (s.current_state == s.switch_old_state))
      × ((is_changed (is_changed s).1).0 ≡ false)
      × ((is_changed s).1.current_state ≡ s.current_state)
unfolding is_changed
is_changed-is_changed s = elim (Bool-cases (s.current_state == s.switch_old_state)) [
  | inl e ↦ rw (e, e) (refl, refl, refl)
  | inr e ↦ rw (e, eq→== s.current_state s.current_state refl) (refl, refl, refl)
]
