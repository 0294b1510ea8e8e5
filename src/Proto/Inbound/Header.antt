-- ===== src/Proto/Inbound/Header.antt =====
-- The header of a response of src/proto/udp/inbound.rs, and how far it is decoded.
use ds_rs.Prelude.{
  Outcome-cases, ℕ, ◌+◌, ◌*◌, ◌≡◌, ◌≢◌, refl, ◌∙◌, List, [], ◌∷◌, ◌++◌, length, Outcome, ok, err,
  panicked, bit_and, ◌==◌, inl, inr,
}
use ds_rs.Crates.{BytesCrate, Bitflags, Float32, f32_256}
use ds_rs.Ext.{read_u8, Reader, lift, ◌>>=◌, >>=-ok, >>=-panicked, pure}
use ds_rs.Ext.Reads.{read_u8-next, read_u16_be-next}
use ds_rs.Proto.Inbound.{unwrap, UdpResponsePacket, status_all, trace_all, skip_tags, decode}

-- The header of a response, with the bytes of its battery voltage.
pub record Header : Type 0 where
  pub seq_high : ℕ
  pub seq_low : ℕ
  pub version : ℕ
  pub status : ℕ
  pub trace : ℕ
  pub high : ℕ
  pub low : ℕ
  pub date : ℕ

abbrev pub header_bytes : Header → List ℕ
header_bytes h =
    h.seq_high ∷ h.seq_low ∷ h.version ∷ h.status ∷ h.trace ∷ h.high ∷ h.low ∷ h.date ∷ []

-- The flags of the two flag bytes are all known.
abbrev pub IsKnown : Header → Type 0
IsKnown h = (bit_and h.status status_all ≡ h.status) × (bit_and h.trace trace_all ≡ h.trace)

abbrev pub packet_of : Float32 → Header → UdpResponsePacket
packet_of f h = record {
  seqnum = h.seq_high * 256 + h.seq_low;
  status = h.status;
  trace = h.trace;
  battery = f.add (f.from_u8 h.high) (f.div (f.from_u8 h.low) f32_256);
  need_date = h.date == 1;
}

-- What is left to decode after the tags.
abbrev pub finish :
    UdpResponsePacket → Outcome (Unit {0} × List ℕ) → Outcome (UdpResponsePacket × List ℕ)
finish p (ok (u, rest)) = ok (p, rest)
finish p (err e) = err e
finish p panicked = panicked

pub finish_lem :
    (m : Reader (Unit {0})) (p : UdpResponsePacket) (buf : List ℕ)
    → (m >>= λ _. pure p) buf ≡ finish p (m buf)
finish_lem m p buf = elim (Outcome-cases (m buf)) [
  | inl (a, e) ↦ rw (e, ◌>>=◌) refl
  | inr (inl (x, e)) ↦ rw (e, ◌>>=◌) refl
  | inr (inr e) ↦ rw (e, ◌>>=◌) refl
]

pub known_flags {κ} :
    {B : Type κ} (g : Bitflags) (all x : ℕ)
    → bit_and x all ≡ x
    → (k : ℕ → Reader B) (buf : List ℕ) → (lift (unwrap (g.from_bits all x)) >>= k) buf ≡ k x buf
known_flags g all x h k buf =
    >>=-ok (lift (unwrap (g.from_bits all x))) k buf (rw (g.from_bits_known all x h) refl)

pub unknown_flags {κ} :
    {B : Type κ} (g : Bitflags) (all x : ℕ)
    → bit_and x all ≢ x
    → (k : ℕ → Reader B) (buf : List ℕ) → (lift (unwrap (g.from_bits all x)) >>= k) buf ≡ panicked
unknown_flags g all x h k buf =
    >>=-panicked (lift (unwrap (g.from_bits all x))) k buf (rw (g.from_bits_unknown all x h) refl)

module _ (b : BytesCrate) (g : Bitflags) (f : Float32) where
  -- What is left to decode behind the flags.
  abbrev pub after_flags : ℕ → ℕ → ℕ → Reader UdpResponsePacket
  after_flags seqnum status trace = do
    high ← read_u8 b
    low ← read_u8 b
    date_byte ← read_u8 b
    _ ← (λ buf. skip_tags b (length buf) buf)
    pure (record {
      seqnum = seqnum;
      status = status;
      trace = trace;
      battery = f.add (f.from_u8 high) (f.div (f.from_u8 low) f32_256);
      need_date = date_byte == 1;
    })

  abbrev pub after_status : ℕ → ℕ → Reader UdpResponsePacket
  after_status seqnum status = do
    trace_byte ← read_u8 b
    trace ← lift (unwrap (g.from_bits trace_all trace_byte))
    after_flags seqnum status trace

  pub decode_status :
      (x y v status : ℕ) (rest : List ℕ)
      → bit_and status status_all ≡ status
      → decode b g f (x ∷ y ∷ v ∷ status ∷ rest) ≡ after_status (x * 256 + y) status rest
  unfolding decode
  decode_status x y v status rest known =
      read_u16_be-next b _ x y _
      ∙ read_u8-next b _ v _
      ∙ read_u8-next b _ status rest
      ∙ known_flags g status_all status known _ rest

  pub decode_flags :
      (x y v status trace : ℕ) (rest : List ℕ)
      → bit_and status status_all ≡ status
      → bit_and trace trace_all ≡ trace
      → decode b g f (x ∷ y ∷ v ∷ status ∷ trace ∷ rest)
        ≡ after_flags (x * 256 + y) status trace rest
  decode_flags x y v status trace rest known traced =
      decode_status x y v status (trace ∷ rest) known
      ∙ read_u8-next b _ trace rest
      ∙ known_flags g trace_all trace traced _ rest

  pub decode_header :
      (h : Header) (rest : List ℕ)
      → IsKnown h
      → decode b g f (header_bytes h ++ rest)
        ≡ finish (packet_of f h) (skip_tags b (length rest) rest)
  decode_header h rest known =
      decode_flags h.seq_high h.seq_low h.version h.status h.trace _ known.0 known.1
      ∙ read_u8-next b _ h.high _
      ∙ read_u8-next b _ h.low _
      ∙ read_u8-next b _ h.date rest
      ∙ finish_lem (λ buf. skip_tags b (length buf) buf) (packet_of f h) rest
