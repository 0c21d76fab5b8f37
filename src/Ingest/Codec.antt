-- ===== src/Ingest/Codec.antt =====
-- services/ingest/codec.go: `decodePayload`. The decoders of CBOR and JSON and the JSON encoder are
-- outside the repository, so they are fields of `Codecs`.
use controlai.Prelude.{
  ◌≡◌, refl, sym, subst, eq_iff, String, Bool, true, false, ◌==◌, Option, none, some, if◌then◌else◌,
  inl, inr, Bool-cases, ◌⊎◌,
}

-- Bytes, decoded maps and errors, with `cborUnmarshal`, `jsonUnmarshal` and `jsonMarshal`.
pub record Codecs : Type 1 where
  pub Bytes : Type 0
  pub Map : Type 0
  pub Error : Type 0
  pub cbor_unmarshal : Bytes → Error ⊎ Map
  pub json_unmarshal : Bytes → Error ⊎ Map
  pub json_marshal : Map → Error ⊎ Bytes

module _ (c : Codecs) where
  -- `codecResult`; `none` is nil.
  pub record CodecResult : Type 0 where
    pub json_payload : Option c.Bytes
    pub raw : c.Bytes
    pub is_json : Bool
    pub decode_err : Option c.Error

  abbrev pub kept_raw : c.Bytes → CodecResult
  kept_raw raw = record { json_payload = none; raw = raw; is_json = false; decode_err = none }

  abbrev pub failed : c.Bytes → c.Error → CodecResult
  failed raw e = record (kept_raw raw) { decode_err = some e }

  abbrev pub decoded : c.Bytes → c.Bytes → CodecResult
  decoded raw json = record (kept_raw raw) { json_payload = some json; is_json = true }

  abbrev pub encode : c.Bytes → c.Error ⊎ c.Bytes → CodecResult
  encode raw (inl e) = failed raw e
  encode raw (inr json) = decoded raw json

  abbrev pub from_cbor : c.Bytes → c.Error ⊎ c.Map → CodecResult
  from_cbor raw (inl e) = failed raw e
  from_cbor raw (inr m) = encode raw (c.json_marshal m)

  abbrev pub from_json : c.Bytes → c.Error ⊎ c.Map → CodecResult
  from_json raw (inl e) = failed raw e
  from_json raw (inr m) = decoded raw raw

  -- `decodePayload`.
  unfoldable pub decode_payload : String → c.Bytes → CodecResult
  decode_payload codec raw =
      if codec == "cbor"
      then from_cbor raw (c.cbor_unmarshal raw)
      else if codec == "json"
      then from_json raw (c.json_unmarshal raw)
      else kept_raw raw

  -- What may come of a payload, from the answers of the decoders alone.
  pub data Decoded : String → c.Bytes → CodecResult → Type 0 where
    cbor_decoded :
        {raw json : c.Bytes} {m : c.Map}
        → c.cbor_unmarshal raw ≡ inr m
        → c.json_marshal m ≡ inr json
        → Decoded "cbor" raw
            (record { json_payload = some json; raw = raw; is_json = true; decode_err = none })
    cbor_undecoded :
        {raw : c.Bytes} {e : c.Error}
        → c.cbor_unmarshal raw ≡ inl e
        → Decoded "cbor" raw
            (record { json_payload = none; raw = raw; is_json = false; decode_err = some e })
    cbor_unencoded :
        {raw : c.Bytes} {m : c.Map} {e : c.Error}
        → c.cbor_unmarshal raw ≡ inr m
        → c.json_marshal m ≡ inl e
        → Decoded "cbor" raw
            (record { json_payload = none; raw = raw; is_json = false; decode_err = some e })
    json_decoded :
        {raw : c.Bytes} {m : c.Map}
        → c.json_unmarshal raw ≡ inr m
        → Decoded "json" raw
            (record { json_payload = some raw; raw = raw; is_json = true; decode_err = none })
    json_undecoded :
        {raw : c.Bytes} {e : c.Error}
        → c.json_unmarshal raw ≡ inl e
        → Decoded "json" raw
            (record { json_payload = none; raw = raw; is_json = false; decode_err = some e })
    passed_through :
        {codec : String} {raw : c.Bytes}
        → (codec == "cbor") ≡ false
        → (codec == "json") ≡ false
        → Decoded codec raw
            (record { json_payload = none; raw = raw; is_json = false; decode_err = none })

  encode-Decoded :
      (raw : c.Bytes) (m : c.Map) (o : c.Error ⊎ c.Bytes)
      → c.cbor_unmarshal raw ≡ inr m
      → c.json_marshal m ≡ o
      → Decoded "cbor" raw (encode raw o)
  encode-Decoded raw m (inl e) h k = cbor_unencoded h k
  encode-Decoded raw m (inr json) h k = cbor_decoded h k

  from_cbor-Decoded :
      (raw : c.Bytes) (o : c.Error ⊎ c.Map)
      → c.cbor_unmarshal raw ≡ o
      → Decoded "cbor" raw (from_cbor raw o)
  from_cbor-Decoded raw (inl e) h = cbor_undecoded h
  from_cbor-Decoded raw (inr m) h = encode-Decoded raw m (c.json_marshal m) h refl

  from_json-Decoded :
      (raw : c.Bytes) (o : c.Error ⊎ c.Map)
      → c.json_unmarshal raw ≡ o
      → Decoded "json" raw (from_json raw o)
  from_json-Decoded raw (inl e) h = json_undecoded h
  from_json-Decoded raw (inr m) h = json_decoded h

  -- For the codec "cbor" the payload is what JSON makes of the decoded CBOR, and an error is that of the
  -- CBOR decoder or of the JSON encoder; for "json" it is the message itself where the JSON decoder
  -- takes it, and an error is that decoder's; for other codecs there is neither. The raw bytes are
  -- always the message, and `IsJSON` is set exactly where there is a payload.
  pub decode_payload-Decoded :
      (codec : String) (raw : c.Bytes) → Decoded codec raw (decode_payload codec raw)
  unfolding decode_payload
  decode_payload-Decoded codec raw = elim (Bool-cases (codec == "cbor")) [
    | inl e ↦ rw e (
        subst (λ k. Decoded k raw (from_cbor raw (c.cbor_unmarshal raw)))
          (sym ((eq_iff codec "cbor").0 e)) (from_cbor-Decoded raw (c.cbor_unmarshal raw) refl))
    | inr e ↦ elim (Bool-cases (codec == "json")) [
      | inl f ↦
          rw (e, f)
            (subst (λ k. Decoded k raw (from_json raw (c.json_unmarshal raw)))
              (sym ((eq_iff codec "json").0 f)) (from_json-Decoded raw (c.json_unmarshal raw) refl))
      | inr f ↦ rw (e, f) (passed_through e f)
    ]
  ]
