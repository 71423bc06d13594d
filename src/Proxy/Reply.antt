-- ===== src/Proxy/Reply.antt =====
-- src/proxy.rs, `forward` and `extract_status`: the reply of a backend, and its status.
use mathlib.Core.Option
use glasir_control.Prelude.{
  ℕ, ◌*◌, ◌^◌, not, Option, none, some, List, [], ◌∷◌, ◌++◌, ltb, if◌then◌else◌, is_empty, filter,
  nat_eq, Bool_eq, list_eq, pair_eq,
}
use glasir_control.Text.{Text, is_whitespace, split_by}
use glasir_control.Text.Lines.{lines}
use glasir_control.Text.Utf8.{as_bytes, from_utf8}
use glasir_control.Rights.{Tree}
use glasir_control.Proxy.{Request, backend_head}
use glasir_control.Crypto.{take}
use glasir_control.Auth.{parse_u64}

-- `str::split_whitespace`
abbrev pub split_whitespace : Text → List Text
split_whitespace s = filter (λ word. not (is_empty word)) (split_by is_whitespace s)

abbrev pub first_line : List Text → Text
first_line [] = []
first_line (l ∷ ls) = l

-- `parse::<u16>().ok()` of the second word
abbrev pub second_number : List Text → Option ℕ
second_number (a ∷ b ∷ more) = u16_of (parse_u64 b)
  where
    u16_of : Option ℕ → Option ℕ
    u16_of none = none
    u16_of (some n) = if ltb n (2 ^ 16) then some n else none
second_number _ = none

abbrev pub status_of : Option Text → Option ℕ
status_of none = none
status_of (some text) = second_number (split_whitespace (first_line (lines text)))

unfoldable pub extract_status : List ℕ → ℕ
unfolding from_utf8 lines split_by is_whitespace parse_u64
extract_status reply = elim (status_of (from_utf8 (take 64 reply))) [ none ↦ 200 | some n ↦ n ]

-- MAX_BACKEND_REPLY
abbrev pub max_backend_reply : ℕ
max_backend_reply = 32 * 1024 * 1024

-- What a backend answers, if it does. `exchange` is the connection, over TLS or not: what comes back from an
-- address for the bytes that are sent to it.
unfoldable pub forward : (Text → List ℕ → Option (List ℕ)) → Tree → Request → Option (List ℕ)
unfolding backend_head as_bytes
forward exchange t req =
    Option.map (take max_backend_reply)
      (exchange t.addr (as_bytes (backend_head t req) ++ req.body))
