-- ===== src/Tracker/Powerloss/Edges.antt =====
-- A message for each loss and each return of the power.
use docker_applications.Common.{
  ℕ, suc, ◌+◌, ◌≡◌, ap, ◌∙◌, Bool, true, false, not, List, [], ◌∷◌, arith,
}
use docker_applications.Tracker.Powerloss.{Power, get_powerloss_data_and_transmit}

-- One check: whether the gauge is valid, and whether the message could be encoded.
abbrev pub Check : Type 0
Check = Bool × Bool

unfoldable pub checks : List Check → Power → Power
unfolding get_powerloss_data_and_transmit
checks [] s = s
checks ((v, encoded) ∷ cs) s = checks cs (get_powerloss_data_and_transmit v encoded s)

-- The number of checks that find another state than the one before and a message that could be
-- encoded.
abbrev pub changes : Bool → List Check → ℕ
changes before [] = 0
changes true ((true, encoded) ∷ cs) = changes true cs
changes true ((false, true) ∷ cs) = suc (changes false cs)
changes true ((false, false) ∷ cs) = changes false cs
changes false ((true, true) ∷ cs) = suc (changes true cs)
changes false ((true, false) ∷ cs) = changes true cs
changes false ((false, encoded) ∷ cs) = changes false cs

abbrev pub last_of : Bool → List Check → Bool
last_of before [] = before
last_of before ((v, encoded) ∷ cs) = last_of v cs

-- However the checks go, `powerlossSend` says that the last one found a loss, and `transmit` was
-- called at each change from loss to power and back at which the message could be encoded, and at
-- no other check. A change at which it could not be encoded is noted all the same, and is not tried
-- again.
pub checks_lem :
    (cs : List Check) (before : Bool) (n : ℕ)
    → checks cs (record { powerloss_send = not before; transmits = n })
      ≡ record { powerloss_send = not (last_of before cs); transmits = n + changes before cs }
unfolding checks
checks_lem [] before n =
    ap (λ t. record { powerloss_send = not before; transmits = t })
      (let e : n ≡ n + 0 = omega arith in e)
checks_lem ((true, encoded) ∷ cs) true n = checks_lem cs true n
checks_lem ((false, encoded) ∷ cs) false n = checks_lem cs false n
checks_lem ((false, false) ∷ cs) true n = checks_lem cs false n
checks_lem ((true, false) ∷ cs) false n = checks_lem cs true n
checks_lem ((false, true) ∷ cs) true n =
    checks_lem cs false (n + 1)
    ∙ ap (λ t. record { powerloss_send = not (last_of false cs); transmits = t })
        (let e : (n + 1) + changes false cs ≡ n + suc (changes false cs) = omega arith in e)
checks_lem ((true, true) ∷ cs) false n =
    checks_lem cs true (n + 1)
    ∙ ap (λ t. record { powerloss_send = not (last_of true cs); transmits = t })
        (let e : (n + 1) + changes true cs ≡ n + suc (changes true cs) = omega arith in e)
