-- ===== src/Http/Tunnel/Laws.antt =====
-- About httpConnect and the connection it is left with.
use wirez.Conn.{close, Conn, set_deadline, apply_deadline, write}
use wirez.Conn.Laws.{bind-ok, write-open, set_deadline-open}
use wirez.Http.Reader.{Reader, unread, read_line}
use wirez.Http.Reader.Laws.{
  line, lines, Reads, read_line-line, IsField, read_mime_header-lines, Reads-trans,
}
use wirez.Http.Tunnel.{
  message_of, value, trim_prefix, request_text, split_n, split_at, has_prefix, decided, on_line,
  kept, http_response, http_connect, tunnel_connect,
}
use wirez.Prelude.{
  equal_differs, equal_iff, drop-length, ℕ, suc, ◌≡◌, ◌≢◌, refl, sym, ap, ◌∙◌, Bool, true, false,
  Option, none, some, List, [], ◌∷◌, ◌++◌, append_assoc, Bytes, bytes, length, drop, has,
  has-append, All, equal_refl, index-append, take-length, drop-suc-length,
}
use wirez.Socks.Connect.{Settled, over-Settled, set_deadline_ok, apply_deadline-open}
use wirez.Socks.Session.{Userinfo, ProxyAddr, Connector}
use wirez.Throw.{Outcome, ok, throw}

-- A status line: the version behind HTTP/, a code and a text.
abbrev pub version_of : Bytes → Bytes
version_of v = bytes "HTTP/" ++ v

abbrev pub status_line : Bytes → Bytes → Bytes → Bytes
status_line v code text = version_of v ++ b' ' ∷ (code ++ b' ' ∷ text)

-- The parts of a status line: no newline in any, and no space before the text.
pub record IsStatus (v code text : Bytes) : Type 0 where
  pub version_word : has b' ' v ≡ false
  pub code_word : has b' ' code ≡ false
  pub one_line : has b'\n' (status_line v code text) ≡ false

split_n-word :
    (c n : ℕ) (w s : Bytes)
    → has c w ≡ false
    → split_n c (suc (suc n)) (w ++ c ∷ s) ≡ w ∷ split_n c (suc n) s
unfolding split_n
split_n-word c n w s h =
    let at = ap (λ o. split_at (w ++ c ∷ s) o (split_n c (suc n))) (index-append c w s h) in
    let head =
      ap (λ x. x ∷ split_n c (suc n) (drop (suc (length w)) (w ++ c ∷ s)))
        (take-length w (c ∷ s)) in
    at ∙ head ∙ ap (λ x. w ∷ split_n c (suc n) x) (drop-suc-length w c s)

split-status :
    (v code text : Bytes)
    → IsStatus v code text
    → split_n b' ' 3 (status_line v code text) ≡ version_of v ∷ code ∷ text ∷ []
unfolding split_n
split-status v code text s =
    split_n-word b' ' 1 (version_of v) (code ++ b' ' ∷ text)
      (has-append b' ' (bytes "HTTP/") v ∙ s.version_word)
    ∙ ap (λ x. version_of v ∷ x) (split_n-word b' ' 0 code text s.code_word)

version-has_prefix : (v : Bytes) → has_prefix (version_of v) (bytes "HTTP/") ≡ true
version-has_prefix v = equal_refl (bytes "HTTP/")

-- All that a proxy answers in front of what the destination sends.
abbrev pub answer : Bytes → Bytes → Bytes → List Bytes → Bytes → Bytes
answer v code text ls rest = line (status_line v code text) ++ (lines ls ++ (line [] ++ rest))

module _ (ahead : Bytes → ℕ) (field : Bytes → Bool) where
  -- An answer is read up to the end of its header, wherever the reader's buffer ends.
  on_line-answer :
      (r : Reader) (v code text : Bytes) (ls : List Bytes) (rest : Bytes)
      → r.conn.closed ≡ false
      → IsStatus v code text
      → All (IsField field) ls
      → unread r ≡ answer v code text ls rest
      → (r' : Reader) × (on_line ahead field (read_line ahead r)
          ≡ decided (status_line v code text) (version_of v) code (ok tt, r'))
        × Reads r r' rest
  on_line-answer r v code text ls rest h s f e =
      let status = status_line v code text in
      let (q, read, w) =
        read_line-line ahead r status (lines ls ++ (line [] ++ rest)) h s.one_line e in
      let (r', header, w') =
        read_mime_header-lines ahead field q ls rest (ap (λ (k : Conn). k.closed) w.same ∙ h) f
          w.left in
      (
        r',
        rw read (rw (split-status v code text s) (rw (version-has_prefix v) (rw header refl))),
        Reads-trans w w',
      )

trim_prefix-append : (p s : Bytes) → trim_prefix (p ++ s) p ≡ s
trim_prefix-append p s = rw (take-length p s, equal_refl p) (drop-length p s)

trim_version :
    (v code text : Bytes)
    → trim_prefix (status_line v code text) (version_of v ++ b' ' ∷ []) ≡ code ++ b' ' ∷ text
trim_version v code text =
    let x = code ++ b' ' ∷ text in
    let split = append_assoc (version_of v) (b' ' ∷ []) x in
    ap (λ s. trim_prefix s (version_of v ++ b' ' ∷ [])) (sym split)
    ∙ trim_prefix-append (version_of v ++ b' ' ∷ []) x

module _ (ahead : Bytes → ℕ) (field : Bytes → Bool) where
  module _ (c : Conn) (open' : c.closed ≡ false) (writable : c.write_error ≡ none) (tcp : Connector)
      (deadline : Option ℕ) (proxy : ProxyAddr) (address : Bytes) (v code text : Bytes)
      (ls : List Bytes) (rest : Bytes)
      (dialed : tcp (bytes "tcp") proxy.address
        ≡ value (record c { incoming = answer v code text ls rest }))
      (status : IsStatus v code text) (fields : All (IsField field) ls) where
    -- What the connection is when the answer has been read.
    answered :
        (s : Option ℕ)
        → (r : Reader) × (unread r ≡ rest)
          × (r.conn ≡ record c {
            incoming = r.conn.incoming;
            sent = c.sent ++ request_text proxy.auth address;
            deadline = s;
          })
          × (http_response ahead field (record c {
            incoming = answer v code text ls rest;
            sent = c.sent ++ request_text proxy.auth address;
            deadline = s;
          })
              ≡ kept ahead field (decided (status_line v code text) (version_of v) code (ok tt, r)))
    unfolding http_response
    answered s =
        let asked = record c {
          incoming = answer v code text ls rest;
          sent = c.sent ++ request_text proxy.auth address;
          deadline = s;
        } in
        let (r, e, w) =
          on_line-answer ahead field (record { ahead = []; conn = asked }) v code text ls rest open'
            status fields refl in
        (r, w.left, w.same, ap (kept ahead field) e)

    -- The connection to the proxy is open and takes what is written, and the proxy answers with the
    -- code 200, in a status line of words and a text, with a header. Then connect succeeds: the
    -- connection that is returned is open and has no deadline, the proxy was sent the request, and
    -- all that the destination sends is still unread, in the reader's buffer and behind it,
    -- wherever the reader stopped.
    pub tunnel_connect-accepts :
        code ≡ bytes "200"
        → (buffer i : Bytes) × (tunnel_connect ahead field tcp deadline proxy address ≡ (
          ok buffer,
          some (record c {
            incoming = i;
            sent = c.sent ++ request_text proxy.auth address;
            deadline = none;
          }),
        ))
          × (buffer ++ i ≡ rest)
    unfolding tunnel_connect http_connect
    tunnel_connect-accepts agreed =
        let (s, armed) =
          apply_deadline-open deadline (record c { incoming = answer v code text ls rest }) open' in
        let (r, left, same, e) = answered s in
        let agree : decided (status_line v code text) (version_of v) code (ok tt, r) ≡ (ok tt, r) =
          rw ((equal_iff code (bytes "200")).1 agreed) refl in
        let timed = record c { incoming = answer v code text ls rest; deadline = s } in
        let asked = write-open (request_text proxy.auth address) timed open' writable in
        let cleared = set_deadline-open none r.conn (ap (λ (k : Conn). k.closed) same ∙ open') in
        (
          r.ahead,
          r.conn.incoming,
          rw (dialed, armed, asked, e)
              (rw agree (
                rw cleared
                  (ap (λ (k : Conn). (ok r.ahead, some (record k { deadline = none }))) same))),
          left,
        )

    -- The proxy answers in the same way with another code: connect fails with the code and the text
    -- of its answer, and the connection has been closed.
    pub tunnel_connect-refused :
        code ≢ bytes "200"
        → (i : Bytes) × (s : Option ℕ) × (tunnel_connect ahead field tcp deadline proxy address ≡ (
          throw (message_of (bytes "http proxy") (code ++ b' ' ∷ text)),
          some (record c {
            incoming = i;
            sent = c.sent ++ request_text proxy.auth address;
            deadline = s;
            closed = true;
          }),
        ))
    unfolding tunnel_connect http_connect
    tunnel_connect-refused other =
        let (s, armed) =
          apply_deadline-open deadline (record c { incoming = answer v code text ls rest }) open' in
        let (r, left, same, e) = answered s in
        let disagree : decided (status_line v code text) (version_of v) code (ok tt, r)
            ≡ (throw (message_of (bytes "http proxy") (code ++ b' ' ∷ text)), r) =
          rw (equal_differs code (bytes "200") other) refl
          ∙ ap (λ m. (throw (message_of (bytes "http proxy") m), r)) (trim_version v code text) in
        let timed = record c { incoming = answer v code text ls rest; deadline = s } in
        let asked = write-open (request_text proxy.auth address) timed open' writable in
        (
          r.conn.incoming,
          s,
          rw (dialed, armed, asked, e)
              (rw disagree (
                ap
                  (λ (k : Conn).
                    (throw (message_of (bytes "http proxy") (code ++ b' ' ∷ text)), some (close k)))
                  same)),
        )

module _ (ahead : Bytes → ℕ) (field : Bytes → Bool) where
  http_connect_ok :
      (deadline : Option ℕ) (auth : Option Userinfo) (address : Bytes) (c d : Conn) {b : Bytes}
      → http_connect ahead field deadline auth address c ≡ (ok b, d)
      → (d.closed ≡ false) × (d.deadline ≡ none)
  unfolding http_connect
  http_connect_ok deadline auth address c d e =
      let (x₁, c₁, r₁, e₁) = bind-ok (apply_deadline deadline) _ c e in
      let (x₂, c₂, r₂, e₂) = bind-ok (write (request_text auth address)) _ c₁ e₁ in
      let (b, c₃, r₃, e₃) = bind-ok (http_response ahead field) _ c₂ e₂ in
      let (x₄, c₄, r₄, e₄) = bind-ok (set_deadline none) _ c₃ e₃ in
      let (o, l) = set_deadline_ok c₃ c₄ r₄ in
      let same : c₄ ≡ d = ap (λ (p : Outcome Bytes × Conn). p.1) e₄ in
      (ap (λ (k : Conn). k.closed) (sym same) ∙ o, ap (λ (k : Conn). k.deadline) (sym same) ∙ l)

  -- Whatever the proxy answers, the connection to it does not leak: either nothing was dialed and
  -- connect fails, or connect succeeds with the connection open and no deadline on it, or it fails
  -- and the connection has been closed.
  pub tunnel_connect-Settled :
      (tcp : Connector) (deadline : Option ℕ) (proxy : ProxyAddr) (address : Bytes)
      → Settled (tunnel_connect ahead field tcp deadline proxy address)
  unfolding tunnel_connect
  tunnel_connect-Settled tcp deadline proxy address =
      over-Settled (http_connect ahead field deadline proxy.auth address)
        (tcp (bytes "tcp") proxy.address)
        (λ c d r e. http_connect_ok deadline proxy.auth address c d e)
