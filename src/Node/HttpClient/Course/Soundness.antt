-- ===== src/Node/HttpClient/Course/Soundness.antt =====
-- Every event keeps a request of node-universal-client.ts sound.
use node_dubbo.Prelude.{
  ℕ, ◌≡◌, refl, sym, subst, ◌∙◌, true, ◌&&◌, not, str_eq, List, [], ◌∷◌, ◌++◌, Option, none, some,
  arith, All, Bool-cases, inl, inr,
}
use node_dubbo.Error.{DubboError, code_number}
use node_dubbo.Node.Reasons.{Store, dubbo_error_from_h2_reset_code}
use node_dubbo.Node.HttpClient.{
  Sentinel, pending, resolved, rejected, Answer, waiting, answered, refused, Result, chunk, end,
  failed, thrown, Request, start, resolve, refuse, rst_code, close_stream, rejects, reject_with,
  reject, stream_error, reset, stream_close, close_if_rejected, stream_opened, respond_to, response,
  check_origin, is_write_after_end, First, body_chunk, body_end, body_fails, sentinel_settled,
  early, add, next_of, next,
}
use node_dubbo.Node.HttpClient.Course.{
  Event, checked, opened, errored, closed_by, responded, aborted, read, step, run, Fits, IsSettled,
  ClosedFor, IsSoundAt, IsSound,
}

Fits-settles :
    (s : Sentinel) (results : List Result) → All (Fits pending) results → All (Fits s) results
Fits-settles s [] h = tt
Fits-settles s (chunk bytes ∷ results) (h, hs) = (tt, Fits-settles s results hs)
Fits-settles s (thrown e ∷ results) (h, hs) = (tt, Fits-settles s results hs)
Fits-settles s (end ∷ results) (h, hs) = absurd h
Fits-settles s (failed e ∷ results) (h, hs) = absurd h

All-snoc :
    (s : Sentinel) (results : List Result) (x : Result)
    → All (Fits s) results
    → Fits s x
    → All (Fits s) (results ++ (x ∷ []))
All-snoc s [] x hs h = (h, tt)
All-snoc s (y ∷ results) x (hy, hs) h = (hy, All-snoc s results x hs h)

refuse-IsSettled : (e : DubboError) (a : Answer) → IsSettled (refuse e a)
refuse-IsSettled e waiting = tt
refuse-IsSettled e (answered status) = tt
refuse-IsSettled e (refused e') = tt

rst_code-ClosedFor : (e : DubboError) → ClosedFor e (some (rst_code e))
unfolding code_number
rst_code-ClosedFor e = ((λ h. ground arith), (λ h. ground arith))

-- A rejected sentinel closes the stream.
close_stream-IsSound :
    (e : DubboError) (r : Request)
    → IsSettled r.answer
    → ClosedFor e r.rst_sent
    → All (Fits (rejected e)) r.results
    → IsSoundAt (rejected e) (close_stream e r)
close_stream-IsSound e r settled closed results = elim (Bool-cases (r.opened && not r.closed)) [
  | inl now ↦ rw now (settled, (rst_code-ClosedFor e, ((λ h. refl), results)))
  | inr later ↦ rw later (settled, (closed, ((λ h. ground arith), results)))
]

close_stream-sentinel : (e : DubboError) (r : Request) → (close_stream e r).sentinel ≡ r.sentinel
close_stream-sentinel e r = elim (Bool-cases (r.opened && not r.closed)) [
  | inl now ↦ rw now refl
  | inr later ↦ rw later refl
]

rejects-IsSound :
    (e : DubboError) (r : Request) (s : Sentinel)
    → r.sentinel ≡ s
    → IsSoundAt s r
    → IsSound (rejects e r s)
rejects-IsSound e r pending at (unsent, results) =
    let r' : Request = record r { sentinel = rejected e; answer = refuse e r.answer } in
    subst (λ s. IsSoundAt s (close_stream e r')) (sym (close_stream-sentinel e r'))
      (close_stream-IsSound e r' (refuse-IsSettled e r.answer) (subst (ClosedFor e) (sym unsent) tt)
        (Fits-settles (rejected e) r.results results))
rejects-IsSound e r resolved at sound = subst (λ s. IsSoundAt s r) (sym at) sound
rejects-IsSound e r (rejected e') at sound = subst (λ s. IsSoundAt s r) (sym at) sound

reject_with-IsSound : (e : DubboError) (r : Request) → IsSound r → IsSound (reject_with e r)
unfolding reject_with
reject_with-IsSound e r sound = rejects-IsSound e r r.sentinel refl sound

add-IsSound :
    (x : Result) (r : Request) (s : Sentinel)
    → r.sentinel ≡ s
    → IsSoundAt s r
    → Fits s x
    → IsSound (add x r)
add-IsSound x r pending at (unsent, results) fits =
    subst (λ s. IsSoundAt s (add x r)) (sym at) (unsent, All-snoc pending r.results x results fits)
add-IsSound x r resolved at (unsent, results) fits =
    subst (λ s. IsSoundAt s (add x r)) (sym at) (unsent, All-snoc resolved r.results x results fits)
add-IsSound x r (rejected e) at (settled, (closed, (shut, results))) fits =
    subst (λ s. IsSoundAt s (add x r)) (sym at)
      (settled, (closed, (shut, All-snoc (rejected e) r.results x results fits)))

next_of-IsSound :
    (first : First) (r : Request) (s : Sentinel)
    → r.sentinel ≡ s
    → IsSoundAt s r
    → IsSound (next_of first r s)
unfolding resolve
next_of-IsSound (body_chunk bytes) r s at sound = add-IsSound (chunk bytes) r s at sound tt
next_of-IsSound (body_fails e) r s at sound = add-IsSound (thrown e) r s at sound tt
next_of-IsSound body_end r pending at (unsent, results) =
    add-IsSound end (record r { sentinel = resolved }) resolved refl
      (unsent, Fits-settles resolved r.results results) tt
next_of-IsSound body_end r resolved at sound =
    add-IsSound end (record r { sentinel = resolved }) resolved refl sound tt
next_of-IsSound body_end r (rejected e) at sound =
    add-IsSound (failed e) (record r { sentinel = rejected e }) (rejected e) refl sound refl
next_of-IsSound sentinel_settled r pending at sound = subst (λ s. IsSoundAt s r) (sym at) sound
next_of-IsSound sentinel_settled r resolved at sound =
    add-IsSound (failed early) r resolved at sound refl
next_of-IsSound sentinel_settled r (rejected e) at sound =
    add-IsSound (failed e) r (rejected e) at sound refl

respond-IsSoundAt :
    (status : ℕ) (r : Request) (s : Sentinel)
    → IsSoundAt s r
    → IsSoundAt s (record r { answer = answered status })
respond-IsSoundAt status r pending sound = sound
respond-IsSoundAt status r resolved sound = sound
respond-IsSoundAt status r (rejected e) (settled, rest) = (tt, rest)

response-IsSound :
    (status : ℕ) (r : Request) (a : Answer) → IsSound r → IsSound (respond_to status r a)
response-IsSound status r waiting sound = respond-IsSoundAt status r r.sentinel sound
response-IsSound status r (answered status') sound = sound
response-IsSound status r (refused e) sound = sound

closed-IsSoundAt :
    (r : Request) (s : Sentinel) → IsSoundAt s r → IsSoundAt s (record r { closed = true })
closed-IsSoundAt r pending sound = sound
closed-IsSoundAt r resolved sound = sound
closed-IsSoundAt r (rejected e) (settled, (closed, (shut, results))) =
    (settled, (closed, ((λ h. refl), results)))

reset-IsSound : (o : Option DubboError) (r : Request) → IsSound r → IsSound (reset o r)
reset-IsSound none r sound = sound
reset-IsSound (some e) r sound = reject_with-IsSound e r sound

opened-IsSound :
    (r : Request) (s : Sentinel)
    → r.sentinel ≡ s
    → IsSoundAt s r
    → IsSound (close_if_rejected s (record r { opened = true }))
opened-IsSound r pending at sound =
    subst (λ s. IsSoundAt s (record r { opened = true })) (sym at) sound
opened-IsSound r resolved at sound =
    subst (λ s. IsSoundAt s (record r { opened = true })) (sym at) sound
opened-IsSound r (rejected e) at (settled, (closed, (shut, results))) =
    let r' : Request = record r { opened = true } in
    subst (λ s. IsSoundAt s (close_stream e r')) (sym (close_stream-sentinel e r' ∙ at))
      (close_stream-IsSound e r' settled closed results)

step-IsSound : (store : Store) (e : Event) (r : Request) → IsSound r → IsSound (step store e r)
unfolding step stream_opened stream_error stream_close check_origin reject next response
step-IsSound store (checked origin authority) r sound =
    elim (Bool-cases (str_eq origin authority)) [
      | inl same ↦ rw same sound
      | inr other ↦ rw other (reject_with-IsSound _ r sound)
    ]
step-IsSound store opened r sound = opened-IsSound r r.sentinel refl sound
step-IsSound store (errored ended e) r sound =
    elim (Bool-cases (ended && is_write_after_end store e)) [
      | inl quiet ↦ rw quiet sound
      | inr loud ↦ rw loud (reject_with-IsSound _ r sound)
    ]
step-IsSound store (closed_by rst) r sound =
    reset-IsSound (dubbo_error_from_h2_reset_code rst) (record r { closed = true })
      (closed-IsSoundAt r r.sentinel sound)
step-IsSound store (responded status) r sound = response-IsSound status r r.answer sound
step-IsSound store (aborted reason) r sound = reject_with-IsSound _ r sound
step-IsSound store (read first) r sound = next_of-IsSound first r r.sentinel refl sound

run-IsSound : (store : Store) (r : Request) (es : List Event) → IsSound r → IsSound (run store r es)
unfolding run
run-IsSound store r [] sound = sound
run-IsSound store r (e ∷ es) sound =
    run-IsSound store (step store e r) es (step-IsSound store e r sound)

pub run-start-IsSound : (store : Store) (es : List Event) → IsSound (run store start es)
unfolding start
run-start-IsSound store es = run-IsSound store start es (refl, tt)
