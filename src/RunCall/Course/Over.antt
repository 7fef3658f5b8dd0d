-- ===== src/RunCall/Course/Over.antt =====
-- A call of run-call.ts that is over stays as it is.
use node_dubbo.Prelude.{
  ℕ, zero, suc, ◌≡◌, refl, sym, subst, ◌==◌, Bool-cases, inl, inr, Bool, true, false, List, [], ◌∷◌,
  Option, none, some, All,
}
use node_dubbo.Error.{Reason, dubbo}
use node_dubbo.RunCall.Signals.{
  Signal, Source, Linked, abort_own, source_event, own_aborts, abort_at, source_at, source_aborts,
  timed_out,
}
use node_dubbo.RunCall.{CallSignal, deadline_fires, caller_aborts, abort_reason, abort, done}
use node_dubbo.RunCall.Course.{Event, cancelled, expired, threw, ended, step, run, Over}

abort_at-IsSilent :
    (n : ℕ) (reason : Option Reason) (ss : List Source)
    → All (λ (s : Source). s.listened ≡ false) ss
    → All (λ (s : Source). s.listened ≡ false) (abort_at n reason ss)
unfolding abort_at
abort_at-IsSilent n reason [] h = tt
abort_at-IsSilent zero reason (s ∷ ss) h = h
abort_at-IsSilent (suc n) reason (s ∷ ss) (h, hs) = (h, abort_at-IsSilent n reason ss hs)

source_at-IsSilent :
    (n : ℕ) (ss : List Source)
    → All (λ (s : Source). s.listened ≡ false) ss
    → (source_at n ss).listened ≡ false
unfolding source_at
source_at-IsSilent n [] h = refl
source_at-IsSilent zero (s ∷ ss) (h, hs) = h
source_at-IsSilent (suc n) (s ∷ ss) (h, hs) = source_at-IsSilent n ss hs

source_event-Over :
    (n : ℕ) (reason : Option Reason) (l : Linked) (x : Option Reason) (signal : Signal) (b : Bool)
    → b ≡ false
    → Over x l
    → Over x (source_event n reason l (record { signal = signal; listened = b }))
source_event-Over n reason l x (some before) b unheard over = over
source_event-Over n reason l x none true unheard over = cc
source_event-Over n reason l x none false unheard (own, (silent, own_silent)) =
    (own, (abort_at-IsSilent n reason l.sources silent, own_silent))

module _ {x : Option Reason} (reason : Option Reason) (l : Linked) (over : Over x l) where
  source_aborts-Over : (n : ℕ) → Over x (source_aborts n reason l)
  unfolding source_aborts
  source_aborts-Over n =
      source_event-Over n reason l x (source_at n l.sources).signal (source_at n l.sources).listened
        (source_at-IsSilent n l.sources over.1.0) over

  own_aborts-Over : Over x (own_aborts reason l)
  unfolding own_aborts
  own_aborts-Over = subst (λ s. Over x (abort_own reason l s l.own.listened)) (sym over.0) over

-- Once a call is over, it stays over as it is.
step-Over :
    (e : Event) (c : CallSignal) (x : Option Reason)
    → Over x c.controller
    → Over x (step e c).controller
unfolding step abort done caller_aborts deadline_fires
step-Over (threw reason) c x over =
    own_aborts-Over (some (dubbo (abort_reason reason c))) c.controller over
step-Over ended c x over = own_aborts-Over none c.controller over
step-Over (cancelled reason) c x over = elim (Bool-cases (c.deadline == 0)) [
  | inl alone ↦ rw alone over
  | inr given ↦ rw given (source_aborts-Over reason c.controller over 0)
]
step-Over expired c x over = elim (Bool-cases c.timer) [
  | inl set ↦ rw set (source_aborts-Over (some timed_out) c.controller over c.deadline)
  | inr unset ↦ rw unset over
]

pub run-Over :
    (es : List Event) (c : CallSignal) (x : Option Reason)
    → Over x c.controller
    → Over x (run c es).controller
unfolding run
run-Over [] c x over = over
run-Over (e ∷ es) c x over = run-Over es (step e c) x (step-Over e c x over)
