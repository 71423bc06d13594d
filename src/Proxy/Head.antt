-- ===== src/Proxy/Head.antt =====
-- src/proxy.rs, `backend_head`: what a backend is told of the caller's headers.
use glasir_control.Prelude.{
  list_beq, ◌≡◌, refl, sym, ap, ◌∙◌, ◌⊎◌, inl, inr, true, List, [], ◌∷◌, ◌++◌, map, append_assoc,
  Bool-cases, length, contains, nat_eq, Bool_eq, list_eq, pair_eq,
}
use glasir_control.Text.{Text, codes, to_ascii_lowercase}
use glasir_control.Rights.{Tree}
use glasir_control.Security.{Header}
use glasir_control.Proxy.{Request, dropped_headers, show, header_line, copied_headers, backend_head}

-- A credential of the caller, or a header that frames a message: its name in lower case.
abbrev pub IsOurs : Text → Type 0
IsOurs name =
    (name ≡ codes "authorization")
    ⊎ (name ≡ codes "proxy-authorization")
    ⊎ (name ≡ codes "cookie")
    ⊎ (name ≡ codes "host")
    ⊎ (name ≡ codes "content-length")
    ⊎ (name ≡ codes "transfer-encoding")
    ⊎ (name ≡ codes "connection")

ours_dropped : (name : Text) → IsOurs name → contains dropped_headers name ≡ true
unfolding list_beq
ours_dropped name (inl e) = rw e
ours_dropped name (inr (inl e)) = rw e
ours_dropped name (inr (inr (inl e))) = rw e
ours_dropped name (inr (inr (inr (inl e)))) = rw e
ours_dropped name (inr (inr (inr (inr (inl e))))) = rw e
ours_dropped name (inr (inr (inr (inr (inr (inl e)))))) = rw e
ours_dropped name (inr (inr (inr (inr (inr (inr e)))))) = rw e

copied_headers-drop :
    (before after : List Header) (k v : Text)
    → contains dropped_headers (map to_ascii_lowercase k) ≡ true
    → copied_headers (before ++ (k, v) ∷ after) ≡ copied_headers (before ++ after)
unfolding copied_headers
copied_headers-drop [] after k v h = rw h
copied_headers-drop ((j, w) ∷ before) after k v h = rw (copied_headers-drop before after k v h)

-- A credential of the caller's, a `Host`, or a header that frames their message does not change what
-- the backend is told, wherever it stands among the headers and however its name is spelled.
pub backend_head-drops :
    (t : Tree) (req : Request) (before after : List Header) (k v : Text)
    → req.headers ≡ before ++ (k, v) ∷ after
    → IsOurs (map to_ascii_lowercase k)
    → backend_head t req ≡ backend_head t (record req { headers = before ++ after })
unfolding backend_head
backend_head-drops t req before after k v e ours =
    ap
      (λ (copied : Text).
        req.method
        ++ codes " /mcp HTTP/1.1\r\n"
        ++ copied
        ++ header_line (codes "Host", t.addr)
        ++ header_line (codes "Authorization", codes "Bearer " ++ t.token)
        ++ header_line (codes "Content-Length", show (length req.body))
        ++ codes "Connection: close\r\n\r\n")
      (ap copied_headers e
        ∙ copied_headers-drop before after k v (ours_dropped (map to_ascii_lowercase k) ours))

copied_headers-append :
    (before after : List Header)
    → copied_headers (before ++ after) ≡ copied_headers before ++ copied_headers after
unfolding copied_headers
copied_headers-append [] after = refl
copied_headers-append ((j, w) ∷ before) after =
    elim (Bool-cases (contains dropped_headers (map to_ascii_lowercase j))) [
      | inl gone ↦ rw (gone, copied_headers-append before after)
      | inr kept ↦
          rw (kept, copied_headers-append before after)
            (sym (append_assoc (header_line (j, w)) (copied_headers before) (copied_headers after)))
    ]
