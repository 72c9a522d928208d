-- ===== src/HttpApi/Invoke/Payload.antt =====
-- Which bytes the body of an invocation stands for, and their limit.
use Prim.Native.Char.{Char}
use spinup.Prelude.{
  ◌≡◌, refl, ap, ◌⊎◌, inl, inr, ◌≤◌, String, Bool, true, false, Option, none, some, [], arith,
  Result, ok, err, ok-injective, length, ltb, if◌then◌else◌, ◌==◌, eq_iff, Bool-cases,
}
use spinup.World.{World}
use spinup.Proxy.{Bytes, Values, max_request_body}
use spinup.HttpApi.Actions.{Claims, Response, Server, ◌>>=◌}
use spinup.HttpApi.Actions.Steps.{Reads, ReadsTo, then-ReadsTo}
use spinup.HttpApi.Invoke.{
  InvokeRequest, InvokeResponse, Codec, decoded_base64, within_limit, request_body,
}

-- The bytes that the body of an invocation stands for.
abbrev pub IsBody : Codec → InvokeRequest → Bytes → Type 0
IsBody codec input b =
    ((input.body ≡ "") × (b ≡ []))
    ⊎ (((input.body_is_base64 ≡ true) × (codec.decode64 input.body ≡ some b))
        ⊎ ((input.body_is_base64 ≡ false) × (b ≡ codec.to_bytes input.body)))

abbrev pub IsPayload : Codec → InvokeRequest → Bytes → Type 0
IsPayload codec input b = IsBody codec input b × (length b ≤ max_request_body)

module _ (codec : Codec) (lower upper : Char → Char) (encode : Values → String) where
  module _ {S C Q : Type 0} (server : Server S C Q) (claims : Option Claims) where
    module _ (w : World S C) where
      within_limit-ReadsTo :
          (P : Bytes → Type 0) (b : Bytes)
          → P b
          → ReadsTo {R = InvokeResponse} w
              (λ x. P x × (length x ≤ max_request_body))
              (within_limit codec lower upper encode server claims b w)
      within_limit-ReadsTo P b h = elim (Bool-cases (ltb max_request_body (length b))) [
        | inl long ↦ rw long (inr (413, _, refl))
        | inr fits ↦ rw fits (inl (b, refl, (h, ground arith)))
      ]

      decoded_base64-Reads :
          (o : Option Bytes)
          → Reads {R = InvokeResponse} w (decoded_base64 codec lower upper encode server claims o w)
      decoded_base64-Reads none = inr (400, _, refl)
      decoded_base64-Reads (some b) = inl (b, refl)

      decoded_base64-some :
          (o : Option Bytes) (b : Bytes)
          → decoded_base64 codec lower upper encode server claims o w ≡ (ok b, w)
          → o ≡ some b
      decoded_base64-some none b e = absurd (not_ok (ap (λ p. p.0) e))
        where
          not_ok :
              {r : Response InvokeResponse}
              → ◌≡◌ {A = Result (Response InvokeResponse) Bytes} (err r) (ok b)
              → ⊥
          not_ok e = cc
      decoded_base64-some (some x) b e = ap some (ok-injective (ap (λ p. p.0) e))

      filled-IsPayload :
          (input : InvokeRequest) (base64 : Bool)
          → input.body_is_base64 ≡ base64
          → ReadsTo {R = InvokeResponse} w (IsPayload codec input) (
              (if base64
                  then (decoded_base64 codec lower upper encode server claims
                        (codec.decode64 input.body)
                      >>= within_limit codec lower upper encode server claims)
                  else within_limit codec lower upper encode server claims
                      (codec.to_bytes input.body))
                w)
      filled-IsPayload input false text =
          within_limit-ReadsTo (IsBody codec input) (codec.to_bytes input.body)
            (inr (inr (text, refl)))
      filled-IsPayload input true binary =
          then-ReadsTo w (IsPayload codec input)
            (decoded_base64 codec lower upper encode server claims (codec.decode64 input.body))
            (within_limit codec lower upper encode server claims)
            (decoded_base64-Reads (codec.decode64 input.body))
            (λ b e.
              within_limit-ReadsTo (IsBody codec input) b
                (inr (inl (binary, decoded_base64-some (codec.decode64 input.body) b e))))

      pub request_body-IsPayload :
          (input : InvokeRequest)
          → ReadsTo {R = InvokeResponse} w
              (IsPayload codec input)
              (request_body codec lower upper encode server claims input w)
      unfolding request_body
      request_body-IsPayload input = elim (Bool-cases (input.body == "")) [
        | inl blank ↦
            rw blank (inl ([], refl, (inl ((eq_iff input.body "").0 blank, refl), omega arith)))
        | inr filled ↦ rw filled (filled-IsPayload input _ refl)
      ]
