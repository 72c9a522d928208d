-- ===== src/Proxy/Relayed.antt =====
-- What proxy.go sends on and what it returns of a response.
use Prim.Native.Char.{Char}
use mathlib.Core.Path.{subst}
use spinup.Prelude.{
  ◌≡◌, refl, sym, ap, ◌≢◌, ◌⊎◌, inl, inr, ℕ, zero, suc, ◌≤◌, String, Bool, true, false, not, ◌||◌,
  Option, none, some, List, [], ◌∷◌, ◌++◌, arith, Result, ok, err, >>=-ok, ok-injective, length,
  take, keep, All, All-append, length-take-le, ltb, ◌==◌, eq_iff, Bool-cases, Option-cases,
}
use spinup.Text.Case.{to_lower}
use spinup.Proxy.{
  Bytes, Values, OutRequest, Stream, InResponse, Response, max_response_body, ended, read_limited,
  cut, read_response, added, all_added, is_skipped, forwarded, do_request, proxy_request, invoke,
  Transport, ProxyRequest,
}

take-take : (n : ℕ) (xs : Bytes) → take n (take (suc n) xs) ≡ take n xs
take-take zero xs = refl
take-take (suc n) [] = refl
take-take (suc n) (x ∷ xs) = ap (λ ys. x ∷ ys) (take-take n xs)

take_all : (n : ℕ) (xs : Bytes) → ltb n (length xs) ≡ false → take n xs ≡ xs
take_all zero [] h = refl
take_all zero (x ∷ xs) h = absurd (ground arith)
take_all (suc n) [] h = refl
take_all (suc n) (x ∷ xs) h = ap (λ ys. x ∷ ys) (take_all n xs (ground arith))

length-take_full : (n : ℕ) (xs : Bytes) → n ≤ length xs → length (take n xs) ≡ n
length-take_full zero xs h = refl
length-take_full (suc n) [] h = absurd (omega arith)
length-take_full (suc n) (x ∷ xs) h = ap suc (length-take_full n xs (omega arith))

-- The body is the stream's beginning, of at most `max` bytes; it is marked as cut exactly if there was
-- more, and otherwise the stream ended without an error.
abbrev pub IsCut : ℕ → Stream → Bytes → Bool → Type 0
IsCut max s body truncated =
    (body ≡ take max s.bytes)
    × (length body ≤ max)
    × (truncated ≡ ltb max (length s.bytes))
    × ((truncated ≡ true) ⊎ ((body ≡ s.bytes) × (s.failure ≡ none)))

ended-ok : (x b : Bytes) (o : Option String) → ended x o ≡ ok b → (b ≡ x) × (o ≡ none)
ended-ok x b none h = (sym (ok-injective h), refl)
ended-ok x b (some e) h = absurd cc

abbrev IsRead : ℕ → Stream → Bytes → Type 0
IsRead max s b = IsCut max s (cut max b).0 (cut max b).1

whole-IsRead :
    (max : ℕ) (s : Stream)
    → ltb max (length s.bytes) ≡ false
    → s.failure ≡ none
    → IsRead max s s.bytes
whole-IsRead max s h none_left =
    rw h (sym (take_all max s.bytes h), ground arith, refl, inr (refl, none_left))

beginning-IsRead :
    (max : ℕ) (s : Stream)
    → ltb (length s.bytes) (suc max) ≡ false
    → IsRead max s (take (suc max) s.bytes)
beginning-IsRead max s h =
    let full : length (take (suc max) s.bytes) ≡ suc max =
      length-take_full (suc max) s.bytes (ground arith) in
    let more : ltb max (length (take (suc max) s.bytes)) ≡ true = rw full (ground arith) in
    let more' : ltb max (length s.bytes) ≡ true = ground arith in
    rw more
      (take-take max s.bytes, length-take-le max (take (suc max) s.bytes), sym more', inl refl)

read_limited-IsRead :
    (max : ℕ) (s : Stream) (b : Bytes) → read_limited (suc max) s ≡ ok b → IsRead max s b
unfolding read_limited
read_limited-IsRead max s b h = elim (Bool-cases (ltb (length s.bytes) (suc max))) [
  | inl short ↦
      let (same, none_left) = ended-ok s.bytes b s.failure (rw short at h) in
      subst (IsRead max s) (sym same) (whole-IsRead max s (ground arith) none_left)
  | inr long ↦
      let same : take (suc max) s.bytes ≡ b = ok-injective (rw long at h) in
      subst (IsRead max s) same (beginning-IsRead max s long)
]

-- The response that is returned for an answer: its status and headers, and the beginning of its body.
abbrev pub Relays : ℕ → InResponse → Response → Type 0
Relays elapsed r p =
    (p.status ≡ r.status)
    × (p.headers ≡ r.headers)
    × (p.duration_ms ≡ elapsed)
    × (IsCut max_response_body r.body p.body p.truncated)

pub read_response-Relays :
    (elapsed : ℕ) (r : InResponse) (p : Response)
    → read_response elapsed r ≡ ok p
    → Relays elapsed r p
unfolding read_response
read_response-Relays elapsed r p h =
    let (b, made, read) = >>=-ok (read_limited (suc max_response_body) r.body) _ h in
    subst (Relays elapsed r) (ok-injective made)
      (refl, refl, refl, read_limited-IsRead max_response_body r.body b read)

pub do_request-ok :
    (t : Transport) (q : OutRequest) (answer : InResponse)
    → do_request t q ≡ ok answer
    → (t.refuses q.method q.url ≡ none) × (t.send q ≡ ok answer)
do_request-ok t q answer h = elim (Option-cases (t.refuses q.method q.url)) [
  | inl taken ↦ (taken, rw taken at h)
  | inr (e, refused) ↦ absurd (no_answer (rw refused at h))
]
  where
    no_answer : {e : String} → ◌≡◌ {A = Result String InResponse} (err e) (ok answer) → ⊥
    no_answer e = cc

added-All :
    (P : String × String → Type 0) (k : String) (vs : List String)
    → ((v : String) → P (k, v))
    → All P (added k vs)
added-All P k [] h = tt
added-All P k (v ∷ vs) h = (h v, added-All P k vs h)

module _ (lower upper : Char → Char) (encode : Values → String) where
  abbrev pub IsUnskipped : String × String → Type 0
  IsUnskipped p =
      (to_lower lower p.0 ≢ "host")
      × (to_lower lower p.0 ≢ "connection")
      × (to_lower lower p.0 ≢ "authorization")
      × (to_lower lower p.0 ≢ "content-length")

  is_skipped-IsUnskipped :
      (k v : String) → is_skipped lower upper encode k ≡ false → IsUnskipped (k, v)
  unfolding is_skipped
  is_skipped-IsUnskipped k v h = (
    (λ e. ground (arith, eq_iff (to_lower lower k) "host")),
    (λ e. ground (arith, eq_iff (to_lower lower k) "connection")),
    (λ e. ground (arith, eq_iff (to_lower lower k) "authorization")),
    (λ e. ground (arith, eq_iff (to_lower lower k) "content-length")),
  )

  forwarded-All : (hs : Values) → All IsUnskipped (forwarded lower upper encode hs)
  unfolding forwarded
  forwarded-All [] = tt
  forwarded-All ((k, vs) ∷ hs) = elim (Bool-cases (is_skipped lower upper encode k)) [
    | inl skipped ↦ rw skipped (forwarded-All hs)
    | inr sent ↦ rw sent (
        All-append IsUnskipped (added k vs) _
          (added-All IsUnskipped k vs (λ v. is_skipped-IsUnskipped k v sent)) (forwarded-All hs))
  ]

  forwarded-keep :
      (hs : Values)
      → forwarded lower upper encode hs
        ≡ all_added (keep (λ h. not (is_skipped lower upper encode h.0)) hs)
  unfolding forwarded all_added keep
  forwarded-keep [] = refl
  forwarded-keep ((k, vs) ∷ hs) = elim (Bool-cases (is_skipped lower upper encode k)) [
    | inl skipped ↦ rw skipped (forwarded-keep hs)
    | inr sent ↦ rw sent (ap (λ xs. added k vs ++ xs) (forwarded-keep hs))
  ]

  -- An invocation that succeeds was of a named service: one request was sent to it, of which no header
  -- is named Host, Connection, Authorization or Content-Length in any case and every other header is
  -- sent with all its values; the answer's status, headers and body are returned, the body cut to
  -- 1 MiB, and marked as cut exactly if it is longer.
  pub invoke-Relays :
      (t : Transport) (base : String) (elapsed : ℕ) (r : ProxyRequest) (p : Response)
      → invoke lower upper encode t base elapsed r ≡ ok p
      → (r.service_name ≢ "")
        × (r.namespace ≢ "")
        × (All IsUnskipped (proxy_request lower upper encode base r).headers)
        × ((proxy_request lower upper encode base r).headers
            ≡ all_added (keep (λ h. not (is_skipped lower upper encode h.0)) r.headers))
        × ((answer : InResponse) × (do_request t (proxy_request lower upper encode base r)
              ≡ ok answer)
            × (Relays elapsed answer p))
  unfolding invoke
  invoke-Relays t base elapsed r p h =
      elim (Bool-cases (r.service_name == "" || r.namespace == "")) [
        | inl nameless ↦ absurd (no_result (rw nameless at h))
        | inr named ↦
            let (answer, read, answered) =
              >>=-ok (do_request t (proxy_request lower upper encode base r)) _ (rw named at h) in
            (
              (λ e. ground (arith, eq_iff r.service_name "")),
              (λ e. ground (arith, eq_iff r.namespace "")),
              (unfold proxy_request in forwarded-All r.headers),
              (unfold proxy_request in forwarded-keep r.headers),
              (answer, answered, read_response-Relays elapsed answer p read),
            )
      ]
    where
      no_result : {e : String} → ◌≡◌ {A = Result String Response} (err e) (ok p) → ⊥
      no_result e = cc
