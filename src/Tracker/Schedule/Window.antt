-- ===== src/Tracker/Schedule/Window.antt =====
-- The daily window of the alternative fix event, and which of the two fix events takes a fix.
use docker_applications.Common.{
  ◌+◌, ◌*◌, ◌≤◌, ◌<◌, ◌≡◌, ◌↔◌, ◌⊎◌, inl, inr, true, Bool-cases, arith,
}
use docker_applications.Config.{
  ConfigParams, check_config, get_alternative_fix_from, get_alternative_fix_to,
}
use docker_applications.Config.Check.{IsChecked-times}
use docker_applications.Tracker.Schedule.{
  Clock, is_alternative_fix_event_applicable, run_default_fix_event, run_alternative_fix_event,
}

-- When the alternative fix event should run, by the comment on
-- `isAlternativeFixEventApplicable`: the clock is set, the interval is set and no longer than the
-- window, and the time of day lies in the window.
pub record InWindow (p : ConfigParams) (c : Clock) : Type 0 where
  pub synced : c.is_rtc_initialized ≡ true
  pub interval_set : 0 < p.alternative_fix_interval
  pub fits : get_alternative_fix_from p + p.alternative_fix_interval * 60 ≤ get_alternative_fix_to p
  pub started : get_alternative_fix_from p ≤ c.hours * 3600 + c.minutes * 60
  pub not_over : c.hours * 3600 + c.minutes * 60 < get_alternative_fix_to p

-- With a checked configuration the code's test is that window, although its difference of times
-- wraps where the window would end before it starts.
pub applicable_iff :
    (p : ConfigParams) (c : Clock)
    → check_config p ≡ true
    → (is_alternative_fix_event_applicable p c ≡ true) ↔ InWindow p c
unfolding is_alternative_fix_event_applicable
applicable_iff p c h = let times = IsChecked-times p h in (λ e. ground arith, λ w. ground arith)

-- With a checked configuration, at any time exactly one of the two fix events takes a fix: the
-- alternative one in the window, the default one outside it.
pub one_fix_event :
    {S : Type 0} (get_data_and_transmit : S → S) (params : S → ConfigParams) (clock : S → Clock)
    (s : S)
    → check_config (params s) ≡ true
    → (InWindow (params s) (clock s)
        × (run_default_fix_event get_data_and_transmit params clock s ≡ s)
        × (run_alternative_fix_event get_data_and_transmit params clock s
            ≡ get_data_and_transmit s))
      ⊎ ((¬ InWindow (params s) (clock s))
          × (run_default_fix_event get_data_and_transmit params clock s ≡ get_data_and_transmit s)
          × (run_alternative_fix_event get_data_and_transmit params clock s ≡ s))
unfolding run_default_fix_event run_alternative_fix_event
one_fix_event get_data_and_transmit params clock s h =
    let iff = applicable_iff (params s) (clock s) h in
    elim (Bool-cases (is_alternative_fix_event_applicable (params s) (clock s))) [
      | inl e ↦ inl (iff.0 e, rw e, rw e)
      | inr e ↦ inr (λ w. cc (iff.1 w), rw e, rw e)
    ]
