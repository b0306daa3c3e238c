-- ===== src/Audit/Records.antt =====
-- A record that `next_record` makes passes the checks of `verify_record`.
use serctl.Common.{
  Bytes, suc, some, true, ok, [], ◌≡◌, all, not, ◌==◌, ◌≤◌, length, ◌++◌, ◌∷◌, refl, inl, inr, ◌<◌,
  arith, Option-cases, ◌^◌, Result-cases, insert, bytes_eq_refl, remove, get, none, Option, ◌∙◌, ap,
}
use serctl.Audit.Ledger.{
  Ledger, verify_record, verify_record_mac, record_mac, chain_record, ensure_identity,
  observe_phase, record_mac_domain, calculate_record_hash, audit_schema_version, record_payload,
}
use serctl.Audit.Files.{next_record, ensure_phase}
use serctl.Audit.Defs.{
  AuditRecord, AuditEvent, VerifiedLog, validate_event, AuditPhase, from_intent, intent, outcome,
  administrative,
}

-- What the ledger relies on in serde_json, hex and HMAC: a record is read back from its JSON, which is
-- not empty and has no line break; a digest is read back from its text and has 32 bytes.
pub record IsFaithful (L : Ledger) : Type 0 where
  pub parse-record :
      (r : AuditRecord) (b : Bytes) → L.record_json r ≡ some b → L.record_parse b ≡ some r
  pub record-line :
      (r : AuditRecord) (b : Bytes)
      → L.record_json r ≡ some b
      → (all (λ c. not (c == 10)) b ≡ true) × (1 ≤ length b)
  pub decode-encode :
      (k m : Bytes) → L.hex_decode (L.hex_encode (L.hmac_sha256 k m)) ≡ some (L.hmac_sha256 k m)
  pub length-hmac : (k m : Bytes) → length (L.hmac_sha256 k m) ≡ 32

module _ (L : Ledger) where
  observe_phase-ensure :
      (p : AuditPhase) (e : AuditEvent) (v : VerifiedLog)
      → ensure_phase L p e v ≡ ok tt
      → (w : VerifiedLog) × (observe_phase p e v ≡ ok w)
        × (w.sequence ≡ v.sequence)
        × (w.record_hash ≡ v.record_hash)
        × (w.hashes ≡ v.hashes)
  unfolding observe_phase ensure_phase
  observe_phase-ensure intent e v h = (
    record v {
      seen_intents = e.request_id ∷ v.seen_intents;
      pending_intents = insert e.request_id (from_intent e) v.pending_intents;
    },
    ground arith,
    refl,
    refl,
    refl,
  )
  observe_phase-ensure outcome e v h = (
    record v { pending_intents = remove e.request_id v.pending_intents },
    ground (arith, Option-cases (get e.request_id v.pending_intents)),
    refl,
    refl,
    refl,
  )
  observe_phase-ensure administrative e v h = (v, refl, refl, refl, refl)

  -- What `next_record` makes of an event.
  abbrev pub NextRecord : AuditEvent → VerifiedLog → AuditRecord → Bytes → Type 0
  NextRecord e v r hash =
      (suc v.sequence < 2 ^ 64)
      × (calculate_record_hash L (suc v.sequence) v.record_hash e ≡ ok hash)
      × (record_mac L (record r { record_mac = [] }) ≡ ok r.record_mac)
      × (r.schema_version ≡ audit_schema_version)
      × (r.sequence ≡ suc v.sequence)
      × (r.previous_hash ≡ L.hex_encode v.record_hash)
      × (r.event ≡ e)
      × (r.record_hash ≡ L.hex_encode hash)

  pub next_record-eq :
      (e : AuditEvent) (v : VerifiedLog) (r : AuditRecord) (hash : Bytes)
      → next_record L e v ≡ ok (r, hash)
      → NextRecord e v r hash
  unfolding next_record
  next_record-eq e v r hash h =
      ground (arith, Result-cases (calculate_record_hash L (suc v.sequence) v.record_hash e))

module _ (L : Ledger) where
  ensure_phase-first_event :
      (p : AuditPhase) (e : AuditEvent) (v : VerifiedLog) (f : Option AuditEvent)
      → ensure_phase L p e (record v { first_event = f }) ≡ ensure_phase L p e v
  unfolding ensure_phase
  ensure_phase-first_event intent e v f = refl
  ensure_phase-first_event outcome e v f = refl
  ensure_phase-first_event administrative e v f = refl

  -- The state in which `verify_record` looks at the phase of a record.
  abbrev started : VerifiedLog → AuditRecord → VerifiedLog
  started v r = record v {
    first_event = elim v.first_event [ none ↦ some r.event | some e ↦ some e ];
  }

  -- A record with the right chain fields is taken once its event has been observed.
  chain_record-eq :
      (e : AuditEvent) (v w : VerifiedLog) (r : AuditRecord) (hash : Bytes)
      → NextRecord L e v r hash
      → w.sequence ≡ v.sequence
      → w.record_hash ≡ v.record_hash
      → chain_record L r w
        ≡ ok (record w {
          record_hash = hash;
          sequence = r.sequence;
          hashes = w.hashes ++ (hash ∷ []);
        })
  unfolding chain_record
  chain_record-eq e v w r hash (small, h, m, sch, seq, prev, ev, rh) s t =
      ground (arith, bytes_eq_refl (L.hex_encode v.record_hash), bytes_eq_refl (L.hex_encode hash))

module _ (L : Ledger) (F : IsFaithful L) where
  verify_record_mac-made :
      (r : AuditRecord)
      → record_mac L (record r { record_mac = [] }) ≡ ok r.record_mac
      → verify_record_mac L r ≡ ok tt
  unfolding verify_record_mac record_mac record_payload
  verify_record_mac-made r h = elim (Option-cases (L.record_payload_json (record_payload r))) [
    | inl e ↦ ground arith
    | inr (b, e) ↦
        let tag = L.hmac_sha256 L.key (record_mac_domain ++ b) in
        ground (
          arith,
          F.decode-encode L.key (record_mac_domain ++ b),
          F.length-hmac L.key (record_mac_domain ++ b),
          bytes_eq_refl tag,
        )
  ]

  -- What `next_record` makes passes the checks of `verify_record`.
  pub next_record-verify_record :
      (e : AuditEvent) (v : VerifiedLog) (r : AuditRecord) (hash : Bytes)
      → validate_event e ≡ ok tt
      → ensure_identity L e ≡ ok tt
      → ensure_phase L e.phase e v ≡ ok tt
      → next_record L e v ≡ ok (r, hash)
      → (w : VerifiedLog) × (verify_record L r v ≡ ok w)
        × (w.sequence ≡ suc v.sequence)
        × (w.record_hash ≡ hash)
        × (w.hashes ≡ v.hashes ++ (hash ∷ []))
  unfolding verify_record
  next_record-verify_record e v r hash valid same phase made =
      let next = next_record-eq L e v r hash made in
      let (small, h, m, sch, seq, prev, ev, rh) = next in
      let begun = started L v r in
      let (w, o, s, t, u) =
        observe_phase-ensure L e.phase e begun
          (ensure_phase-first_event L e.phase e v begun.first_event ∙ phase) in
      (
        record w { record_hash = hash; sequence = r.sequence; hashes = w.hashes ++ (hash ∷ []) },
        ground (arith, verify_record_mac-made r m, chain_record-eq L e v w r hash next s t),
        seq,
        refl,
        ap (λ l. l ++ (hash ∷ [])) u,
      )
