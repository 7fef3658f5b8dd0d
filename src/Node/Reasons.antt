-- ===== src/Node/Reasons.antt =====
-- packages/dubbo-node/src/node-error.ts. Errors are objects that may have one another as causes,
-- in a cycle too: they stand in a store, and a reference is a place in it.
pub mod Chain
use node_dubbo.Prelude.{
  ℕ, zero, suc, ◌+◌, Bool, true, false, ◌||◌, String, List, [], ◌∷◌, ◌++◌, Option, none, some, map,
  any, str_eq, ◌==◌, ◌+++◌, if◌then◌else◌,
}
use node_dubbo.Error.{Code, Reason, DubboError, error, from}

-- A value that was thrown, or a cause: an `Error` in the store, or any other value.
pub data Thrown : Type 0 where
  error_at : ℕ → Thrown
  value : Reason → Thrown

-- An `Error`: how DubboError.from sees it, `code` and `syscall` if they are texts, and `cause`.
pub record NodeError : Type 0 where
  pub seen : Reason
  pub code : Option String
  pub syscall : Option String
  pub cause : Option Thrown

abbrev pub Store : Type 0
Store = List NodeError

unfoldable pub error_in : Store → ℕ → Option NodeError
error_in [] n = none
error_in (e ∷ es) zero = some e
error_in (e ∷ es) (suc n) = error_in es n

-- `chain.includes(reason)`.
unfoldable pub includes : List ℕ → ℕ → Bool
includes [] n = false
includes (m ∷ chain) n = m == n || includes chain n

-- What the loop of unwrapNodeErrorChain does with an error that is not in the chain yet.
unfoldable pub push_error : (Thrown → List ℕ → List ℕ) → List ℕ → ℕ → Option NodeError → List ℕ
push_error again chain n none = chain
push_error again chain n (some e) = elim e.cause [
  | none ↦ chain ++ (n ∷ [])
  | some cause ↦ again cause (chain ++ (n ∷ []))
]

-- The loop, on fuel: no error is in the chain twice.
unfoldable pub unwrap_from : ℕ → Store → Thrown → List ℕ → List ℕ
unwrap_from zero store reason chain = chain
unwrap_from (suc fuel) store (value reason) chain = chain
unwrap_from (suc fuel) store (error_at n) chain =
    let pushed =
      push_error (λ cause c. unwrap_from fuel store cause c) chain n (error_in store n) in
    if includes chain n then chain else pushed

unfoldable pub unwrap_node_error_chain : ℕ → Store → Thrown → List ℕ
unfolding unwrap_from push_error error_in includes
unwrap_node_error_chain fuel store reason = unwrap_from fuel store reason []

-- `p.code` of getNodeErrorProps.
unfoldable pub code_at : Store → ℕ → Option String
unfolding error_in
code_at store n = elim (error_in store n) [ none ↦ none | some e ↦ e.code ]

unfoldable pub has_code : List String → Option String → Bool
has_code codes none = false
has_code codes (some code) = any (str_eq code) codes

unfoldable pub code_of_chain : Store → List ℕ → Code
unfolding has_code code_at
code_of_chain store chain =
    if any (λ n. has_code ("ERR_STREAM_WRITE_AFTER_END" ∷ []) (code_at store n)) chain
    then Code.aborted
    else if any
        (λ n.
          has_code ("ERR_STREAM_DESTROYED" ∷ "ERR_HTTP2_INVALID_STREAM" ∷ "ECONNRESET" ∷ [])
            (code_at store n))
        chain
    then Code.aborted
    else if any (λ n. has_code ("ENOTFOUND" ∷ "EAI_AGAIN" ∷ "ECONNREFUSED" ∷ []) (code_at store n))
        chain
    then Code.unavailable
    else Code.internal

unfoldable pub seen_as : Store → Thrown → Reason
unfolding error_in
seen_as store (value reason) = reason
seen_as store (error_at n) = elim (error_in store n) [
  | none ↦ Reason.other "undefined"
  | some e ↦ e.seen
]

unfoldable pub dubbo_error_from_node_reason : ℕ → Store → Thrown → DubboError
unfolding unwrap_node_error_chain code_of_chain seen_as
dubbo_error_from_node_reason fuel store reason =
    from (seen_as store reason) (code_of_chain store (unwrap_node_error_chain fuel store reason))

-- The codes of HTTP/2 with their names, and the code that each stands for.
abbrev pub reset_codes : List (ℕ × (String × (String × Code)))
reset_codes =
    (1, ("PROTOCOL_ERROR", ("1", Code.internal)))
    ∷ (2, ("INTERNAL_ERROR", ("2", Code.internal)))
    ∷ (3, ("FLOW_CONTROL_ERROR", ("3", Code.internal)))
    ∷ (4, ("SETTINGS_TIMEOUT", ("4", Code.internal)))
    ∷ (6, ("FRAME_SIZE_ERROR", ("6", Code.internal)))
    ∷ (9, ("COMPRESSION_ERROR", ("9", Code.internal)))
    ∷ (10, ("CONNECT_ERROR", ("a", Code.internal)))
    ∷ (7, ("REFUSED_STREAM", ("7", Code.unavailable)))
    ∷ (8, ("CANCEL", ("8", Code.canceled)))
    ∷ (11, ("ENHANCE_YOUR_CALM", ("b", Code.resource_exhausted)))
    ∷ (12, ("INADEQUATE_SECURITY", ("c", Code.permission_denied)))
    ∷ (13, ("HTTP_1_1_REQUIRED", ("d", Code.permission_denied)))
    ∷ []

find_reset : List (ℕ × (String × (String × Code))) → ℕ → Option DubboError
find_reset [] rst_code = none
find_reset ((n, (name, (hex, code))) ∷ rest) rst_code =
    let found = find_reset rest rst_code in
    if n == rst_code
    then some (
        error ("http/2 stream closed with error code " +++ (name +++ (" (0x" +++ (hex +++ ")"))))
          code)
    else found

unfoldable pub dubbo_error_from_h2_reset_code : ℕ → Option DubboError
unfolding find_reset
dubbo_error_from_h2_reset_code rst_code = find_reset reset_codes rst_code
