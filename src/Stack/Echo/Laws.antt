-- ===== src/Stack/Echo/Laws.antt =====
-- About the ICMP responder.
use wirez.Prelude.{
  length-take, ℕ, ◌≤◌, ◌≡◌, refl, ◌∙◌, ◌||◌, not, true, false, Option, none, some, List, [], ◌∷◌,
  Bytes, length, take, drop, ltb, ◌==◌, ==_iff, arith, le→ltb,
}
use wirez.Stack.Echo.{
  caught, Accessors, EchoEvent, writes_packet, reply_header, reply_echo, icmp_handler,
}
use wirez.Stack.Filter.{Header}
use wirez.Throw.{Error, throw_if}

-- The layout of an ICMPv4 header: the type is its first byte, and the checksum two of the first
-- four.
pub record AccessorLaws (k : Header) (a : Accessors) : Type 0 where
  pub type-set_type :
      (h : Bytes)
      → k.icmp4_minimum ≤ length h
      → k.icmp4_type (a.set_type k.icmp4_echo_reply h) ≡ k.icmp4_echo_reply
  pub type-set_checksum : (c : ℕ) (h : Bytes) → k.icmp4_type (a.set_checksum c h) ≡ k.icmp4_type h
  pub behind_type : (t : ℕ) (h : Bytes) → drop 4 (a.set_type t h) ≡ drop 4 h
  pub behind_checksum : (c : ℕ) (h : Bytes) → drop 4 (a.set_checksum c h) ≡ drop 4 h

-- The packets of a trace.
abbrev pub packets : List EchoEvent → List (Bytes × Bytes)
packets [] = []
packets (writes_packet h p ∷ es) = (h, p) ∷ packets es
packets (e ∷ es) = packets es

packets-caught :
    (k : Header) (a : Accessors) (written : Option Error) (request payload : Bytes)
    → packets (caught (reply_echo k a none written request payload)).1
      ≡ (reply_header k a request payload, payload) ∷ []
unfolding reply_echo throw_if
packets-caught k a none request payload = refl
packets-caught k a (some e) request payload = refl

module _ (k : Header) (a : Accessors) (laws : AccessorLaws k a) where
  open laws use {type-set_type, type-set_checksum, behind_type, behind_checksum}

  reply_header-type :
      (request payload : Bytes)
      → k.icmp4_minimum ≤ length request
      → k.icmp4_type (reply_header k a request payload) ≡ k.icmp4_echo_reply
  unfolding reply_header
  reply_header-type request payload l =
      type-set_checksum _ _
      ∙ type-set_checksum 0 _
      ∙ type-set_type _ (omega (arith, length-take k.icmp4_minimum request l))

  drop-reply_header :
      (request payload : Bytes)
      → drop 4 (reply_header k a request payload) ≡ drop 4 (take k.icmp4_minimum request)
  unfolding reply_header
  drop-reply_header request payload =
      behind_checksum _ _ ∙ behind_checksum 0 _ ∙ behind_type k.icmp4_echo_reply _

  -- With the layout of an ICMPv4 header, an echo request that is whole is taken and answered by one
  -- packet, as far as there is a route: an echo reply with the request's own payload, and with its
  -- header behind the checksum, which is its identifier and its sequence number.
  pub icmp_handler-replies :
      (written : Option Error) (request payload : Bytes)
      → k.icmp4_minimum ≤ length request
      → k.icmp4_type request ≡ k.icmp4_echo
      → (h : Bytes) × ((icmp_handler k a none written request payload).0 ≡ true)
        × (packets (icmp_handler k a none written request payload).1.1 ≡ (h, payload) ∷ [])
        × (k.icmp4_type h ≡ k.icmp4_echo_reply)
        × (drop 4 h ≡ drop 4 (take k.icmp4_minimum request))
  unfolding icmp_handler
  icmp_handler-replies written request payload l t =
      let test : (ltb (length request) k.icmp4_minimum
            || not (k.icmp4_type request == k.icmp4_echo))
          ≡ false =
        rw
          (
            le→ltb (length request) k.icmp4_minimum l,
            (==_iff (k.icmp4_type request) k.icmp4_echo).1 t,
          )
          refl in
      (
        reply_header k a request payload,
        rw test refl,
        rw test (packets-caught k a written request payload),
        reply_header-type request payload l,
        drop-reply_header request payload,
      )
