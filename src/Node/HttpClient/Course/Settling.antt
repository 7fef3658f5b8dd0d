-- ===== src/Node/HttpClient/Course/Settling.antt =====
-- What is settled in a request of node-universal-client.ts stays as it is.
use node_dubbo.Prelude.{
  ℕ, ◌≡◌, refl, sym, subst, true, ◌&&◌, not, str_eq, List, [], ◌∷◌, Option, none, some, Bool-cases,
  inl, inr,
}
use node_dubbo.Error.{DubboError}
use node_dubbo.Node.Reasons.{Store, dubbo_error_from_h2_reset_code}
use node_dubbo.Node.HttpClient.{
  Sentinel, pending, resolved, rejected, Answer, waiting, answered, refused, Request, start,
  resolve, refuse, close_stream, rejects, reject_with, reject, stream_error, reset, stream_close,
  close_if_rejected, stream_opened, respond_to, response, check_origin, is_write_after_end, First,
  body_chunk, body_end, body_fails, sentinel_settled, next_of, next,
}
use node_dubbo.Node.HttpClient.Course.{
  Event, checked, opened, errored, closed_by, responded, aborted, read, step, run, IsSound,
  KeepsSentinel, KeepsAnswer, Keeps,
}
use node_dubbo.Node.HttpClient.Course.Soundness.{run-start-IsSound}

KeepsSentinel-refl : (s : Sentinel) → KeepsSentinel s s
KeepsSentinel-refl pending = tt
KeepsSentinel-refl resolved = refl
KeepsSentinel-refl (rejected e) = refl

KeepsSentinel-trans : (s t u : Sentinel) → KeepsSentinel s t → KeepsSentinel t u → KeepsSentinel s u
KeepsSentinel-trans pending t u h k = tt
KeepsSentinel-trans resolved t u h k = subst (λ x. KeepsSentinel x u) h k
KeepsSentinel-trans (rejected e) t u h k = subst (λ x. KeepsSentinel x u) h k

KeepsAnswer-refl : (a : Answer) → KeepsAnswer a a
KeepsAnswer-refl waiting = tt
KeepsAnswer-refl (answered status) = refl
KeepsAnswer-refl (refused e) = refl

KeepsAnswer-trans : (a b c : Answer) → KeepsAnswer a b → KeepsAnswer b c → KeepsAnswer a c
KeepsAnswer-trans waiting b c h k = tt
KeepsAnswer-trans (answered status) b c h k = subst (λ x. KeepsAnswer x c) h k
KeepsAnswer-trans (refused e) b c h k = subst (λ x. KeepsAnswer x c) h k

Keeps-refl : (r : Request) → Keeps r r
Keeps-refl r = (KeepsSentinel-refl r.sentinel, KeepsAnswer-refl r.answer)

Keeps-trans : (r t u : Request) → Keeps r t → Keeps t u → Keeps r u
Keeps-trans r t u (h, k) (h', k') = (
  KeepsSentinel-trans r.sentinel t.sentinel u.sentinel h h',
  KeepsAnswer-trans r.answer t.answer u.answer k k',
)

close_stream-Keeps : (e : DubboError) (r : Request) → Keeps r (close_stream e r)
close_stream-Keeps e r = elim (Bool-cases (r.opened && not r.closed)) [
  | inl now ↦ rw now (KeepsSentinel-refl r.sentinel, KeepsAnswer-refl r.answer)
  | inr later ↦ rw later (KeepsSentinel-refl r.sentinel, KeepsAnswer-refl r.answer)
]

refuse-KeepsAnswer : (e : DubboError) (a : Answer) → KeepsAnswer a (refuse e a)
refuse-KeepsAnswer e waiting = tt
refuse-KeepsAnswer e (answered status) = refl
refuse-KeepsAnswer e (refused e') = refl

rejects-Keeps :
    (e : DubboError) (r : Request) (s : Sentinel) → r.sentinel ≡ s → Keeps r (rejects e r s)
rejects-Keeps e r pending at =
    let r' : Request = record r { sentinel = rejected e; answer = refuse e r.answer } in
    Keeps-trans r r' (close_stream e r')
      (subst (λ s. KeepsSentinel s (rejected e)) (sym at) tt, refuse-KeepsAnswer e r.answer)
      (close_stream-Keeps e r')
rejects-Keeps e r resolved at = Keeps-refl r
rejects-Keeps e r (rejected e') at = Keeps-refl r

reject_with-Keeps : (e : DubboError) (r : Request) → Keeps r (reject_with e r)
unfolding reject_with
reject_with-Keeps e r = rejects-Keeps e r r.sentinel refl

resolve-KeepsSentinel : (s : Sentinel) → KeepsSentinel s (resolve s)
unfolding resolve
resolve-KeepsSentinel pending = tt
resolve-KeepsSentinel resolved = refl
resolve-KeepsSentinel (rejected e) = refl

next_of-Keeps :
    (first : First) (r : Request) (s : Sentinel) → r.sentinel ≡ s → Keeps r (next_of first r s)
next_of-Keeps (body_chunk bytes) r s at = (KeepsSentinel-refl r.sentinel, KeepsAnswer-refl r.answer)
next_of-Keeps (body_fails e) r s at = (KeepsSentinel-refl r.sentinel, KeepsAnswer-refl r.answer)
next_of-Keeps body_end r s at = (
  subst (λ t. KeepsSentinel t (resolve s)) (sym at) (resolve-KeepsSentinel s),
  KeepsAnswer-refl r.answer,
)
next_of-Keeps sentinel_settled r pending at = Keeps-refl r
next_of-Keeps sentinel_settled r resolved at =
    (KeepsSentinel-refl r.sentinel, KeepsAnswer-refl r.answer)
next_of-Keeps sentinel_settled r (rejected e) at =
    (KeepsSentinel-refl r.sentinel, KeepsAnswer-refl r.answer)

respond_to-Keeps :
    (status : ℕ) (r : Request) (a : Answer) → r.answer ≡ a → Keeps r (respond_to status r a)
respond_to-Keeps status r waiting at =
    (KeepsSentinel-refl r.sentinel, subst (λ a. KeepsAnswer a (answered status)) (sym at) tt)
respond_to-Keeps status r (answered status') at = Keeps-refl r
respond_to-Keeps status r (refused e) at = Keeps-refl r

reset-Keeps : (o : Option DubboError) (r : Request) → Keeps r (reset o r)
reset-Keeps none r = Keeps-refl r
reset-Keeps (some e) r = reject_with-Keeps e r

close_if_rejected-Keeps : (s : Sentinel) (r : Request) → Keeps r (close_if_rejected s r)
close_if_rejected-Keeps pending r = Keeps-refl r
close_if_rejected-Keeps resolved r = Keeps-refl r
close_if_rejected-Keeps (rejected e) r = close_stream-Keeps e r

step-Keeps : (store : Store) (e : Event) (r : Request) → Keeps r (step store e r)
unfolding step stream_opened stream_error stream_close check_origin reject next response
step-Keeps store (checked origin authority) r = elim (Bool-cases (str_eq origin authority)) [
  | inl same ↦ rw same (Keeps-refl r)
  | inr other ↦ rw other (reject_with-Keeps _ r)
]
step-Keeps store opened r = close_if_rejected-Keeps r.sentinel (record r { opened = true })
step-Keeps store (errored ended e) r = elim (Bool-cases (ended && is_write_after_end store e)) [
  | inl quiet ↦ rw quiet (Keeps-refl r)
  | inr loud ↦ rw loud (reject_with-Keeps _ r)
]
step-Keeps store (closed_by rst) r =
    reset-Keeps (dubbo_error_from_h2_reset_code rst) (record r { closed = true })
step-Keeps store (responded status) r = respond_to-Keeps status r r.answer refl
step-Keeps store (aborted reason) r = reject_with-Keeps _ r
step-Keeps store (read first) r = next_of-Keeps first r r.sentinel refl

run-Keeps : (store : Store) (r : Request) (es : List Event) → Keeps r (run store r es)
unfolding run
run-Keeps store r [] = Keeps-refl r
run-Keeps store r (e ∷ es) =
    Keeps-trans r (step store e r) (run store (step store e r) es) (step-Keeps store e r)
      (run-Keeps store (step store e r) es)

-- Whatever happens to a request over HTTP/2 and in whatever order, no read of the body has come to
-- its end unless the sentinel is resolved, and a read that failed by the sentinel failed with the
-- error that the sentinel was rejected with, or, if it is resolved, as completed early. The client
-- has closed the stream by a code only if the sentinel is rejected, and then by CANCEL for an
-- error with the code canceled and by INTERNAL_ERROR otherwise. If the sentinel is rejected, the
-- promise of the response is settled, and the stream is closed if there is one. What is settled,
-- the sentinel or the promise of the response, stays as it is whatever happens afterwards.
pub run-start-Keeps :
    (store : Store) (es more : List Event)
    → IsSound (run store start es)
      × Keeps (run store start es) (run store (run store start es) more)
run-start-Keeps store es more =
    (run-start-IsSound store es, run-Keeps store (run store start es) more)
