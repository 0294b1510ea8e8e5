-- ===== src/Proto/Inbound/Whole.antt =====
-- What `UdpResponsePacket::decode` of src/proto/udp/inbound.rs leaves of a datagram.
use ds_rs.Prelude.{
  ℕ, ◌≡◌, sym, ◌∙◌, inl, inr, List, [], length, Outcome-cases, ok, err, panicked, eof, arith,
}
use ds_rs.Crates.{BytesCrate, Bitflags, Float32}
use ds_rs.Ext.{Reader, ◌>>=◌, >>=-ok, >>=-err, >>=-panicked, pure, lift, read_u8, read_u16_be}
use ds_rs.Ext.Reads.{read_u16_be-end}
use ds_rs.Proto.Inbound.{UdpResponsePacket, skip_tags, unwrap, status_all, trace_all, decode}
use ds_rs.Proto.Inbound.Tags.{skip_tags-cases}

-- A reader that leaves nothing where it returns.
abbrev pub TakesAll {ℓ} : {A : Type ℓ} → Reader A → Type ℓ
TakesAll {A} m = (buf rest : List ℕ) (a : A) → m buf ≡ ok (a, rest) → rest ≡ []

module _ {ℓ κ} {A : Type ℓ} {B : Type κ} (m : Reader A) (f : A → Reader B) where
  after-TakesAll : ((a : A) → TakesAll (f a)) → TakesAll (m >>= f)
  after-TakesAll h buf rest c e = elim (Outcome-cases (m buf)) [
    | inl ((a, left), first) ↦ h a left rest c (sym (>>=-ok m f buf first) ∙ e)
    | inr (inl (failure, first)) ↦
        let e' : err failure ≡ ok (c, rest) = sym (>>=-err m f buf first) ∙ e in absurd (cc e')
    | inr (inr first) ↦
        let e' : panicked ≡ ok (c, rest) = sym (>>=-panicked m f buf first) ∙ e in absurd (cc e')
  ]

module _ (b : BytesCrate) (g : Bitflags) (f : Float32) where
  skip_tags-TakesAll :
      (p : UdpResponsePacket) → TakesAll (do _ ← (λ buf. skip_tags b (length buf) buf); pure p)
  skip_tags-TakesAll p buf rest q e = elim (skip_tags-cases b (length buf) buf (omega arith)) [
    | inl all ↦
        let e' : ok (p, []) ≡ ok (q, rest) = sym (>>=-ok loop (λ u. pure p) buf all) ∙ e in
        sym (cc e')
    | inr cut ↦
        let e' : err eof ≡ ok (q, rest) = sym (>>=-err loop (λ u. pure p) buf cut) ∙ e in
        absurd (cc e')
  ]
    where
      loop : Reader (Unit {0})
      loop buf' = skip_tags b (length buf') buf'

  pub decode-TakesAll : TakesAll (decode b g f)
  unfolding decode
  decode-TakesAll = after-TakesAll (read_u16_be b) _ (λ seqnum.
      after-TakesAll (read_u8 b) _ (λ version. after-TakesAll (read_u8 b) _ (λ status_byte.
        after-TakesAll (lift (unwrap (g.from_bits status_all status_byte))) _ (λ status.
          after-TakesAll (read_u8 b) _ (λ trace_byte.
            after-TakesAll (lift (unwrap (g.from_bits trace_all trace_byte))) _ (λ trace.
              after-TakesAll (read_u8 b) _ (λ high.
                after-TakesAll (read_u8 b) _
                  (λ low. after-TakesAll (read_u8 b) _ (λ date_byte. skip_tags-TakesAll _)))))))))

  pub decode-nil : decode b g f [] ≡ panicked
  unfolding decode
  decode-nil = read_u16_be-end b _ [] (omega arith)
