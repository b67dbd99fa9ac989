-- ===== src/Middleware/RateLimit/Refinement.antt =====
-- The limiter with its sweeps, compared with a bucket per client that is never forgotten.
use Prim.Native.Nat.{max}
use ginblade.Prelude.{
  some-injective, none-ne-some, ℕ, ◌+◌, ◌-◌, ◌*◌, ◌/◌, ◌≤◌, ◌≡◌, refl, sym, ap, String, Bool,
  Option, none, some, List, [], ◌∷◌, str_eq, ltb, ltb→lt, if◌then◌else◌, arith, Bool-cases, inl,
  inr,
}
use mathlib.Core.Path.{ap₂, subst}
use native.Mathlib.Nat.{mul-div-le}
use ginblade.Prelude.Int.{ℤ, pos_part, is_positive}
use ginblade.Middleware.RateLimit.{
  minute, Visitor, IpRateLimiter, new_ip_rate_limiter_per_minute, limiter_of, allow, keep, tick,
}
use ginblade.Middleware.RateLimit.Library.{Limiters, LimiterLaws}

-- What happens to the limiter, in the order in which its mutex lets it: a request of a client, with
-- the two readings of the clock that `allow` makes, or a tick of the sweep.
pub data Event : Type 0 where
  ask : String → ℕ → ℕ → Event
  sweep : ℕ → Event

-- The clock does not run backwards under the mutex, and less than two minutes pass between the two
-- readings of one request. A sweep may have read the clock before requests that it waited for.
abbrev pub WellTimed : ℕ → List Event → Type 0
WellTimed clock [] = Unit
WellTimed clock (ask ip seen at ∷ es) =
    (clock ≤ seen) × (seen ≤ at) × (at ≤ seen + 2 * minute) × WellTimed at es
WellTimed clock (sweep now ∷ es) = WellTimed (max clock now) es

module _ (lib : Limiters) where
  -- The answers of the limiter.
  unfoldable pub decisions : IpRateLimiter lib → List Event → List Bool
  decisions l [] = []
  decisions l (ask ip seen at ∷ es) =
      let (allowed, l') = allow lib ip seen at l in allowed ∷ decisions l' es
  decisions l (sweep now ∷ es) = decisions (tick lib now l) es

  abbrev pub put_bucket : String → lib.Limiter → (String → lib.Limiter) → String → lib.Limiter
  put_bucket ip x b key = if str_eq ip key then x else b key

  -- The specification: each client has its own bucket, and a sweep does nothing.
  pub bucket_decisions : (String → lib.Limiter) → List Event → List Bool
  bucket_decisions b [] = []
  bucket_decisions b (ask ip seen at ∷ es) =
      let (allowed, x) = lib.allow (b ip) at in allowed ∷ bucket_decisions (put_bucket ip x b) es
  bucket_decisions b (sweep now ∷ es) = bucket_decisions b es

module _ (lib : Limiters) (laws : LimiterLaws lib) (interval burst : ℕ) where
  -- A visitor in the map holds the client's bucket, and the bucket was last asked near its lastSeen.
  record Held (clock : ℕ) (bucket : lib.Limiter) (v : Visitor lib) : Type 0 where
    same : v.limiter ≡ bucket
    asked_at : ℕ
    asked : laws.AskedBy interval burst bucket asked_at
    near : asked_at ≤ v.last_seen + 2 * minute
    past : asked_at ≤ clock

  -- A client that is not in the map has a bucket that answers as a new one from now on.
  abbrev Tracks : ℕ → lib.Limiter → Option (Visitor lib) → Type 0
  Tracks clock bucket none =
      (t : ℕ) → clock ≤ t → lib.allow bucket t ≡ lib.allow (lib.new_limiter interval burst) t
  Tracks clock bucket (some v) = Held clock bucket v

  -- The client's answer is the bucket's, and the state that it leaves is tracked.
  Tracks-allow :
      (l : IpRateLimiter lib) (o : Option (Visitor lib)) (bucket : lib.Limiter) (clock at : ℕ)
      → l.rate ≡ interval
      → l.burst ≡ burst
      → clock ≤ at
      → Tracks clock bucket o
      → lib.allow (limiter_of lib l o) at ≡ lib.allow bucket at
  Tracks-allow l none bucket clock at r b h t = rw (r, b) (sym (t at h))
  Tracks-allow l (some v) bucket clock at r b h t = ap (λ x. lib.allow x at) t.same

  Held-allow :
      (o : Option (Visitor lib)) (bucket : lib.Limiter) (clock seen at : ℕ)
      → clock ≤ at
      → at ≤ seen + 2 * minute
      → Tracks clock bucket o
      → Held at
          (lib.allow bucket at).1
          (record { limiter = (lib.allow bucket at).1; last_seen = seen })
  Held-allow none bucket clock seen at h n t = record {
    same = refl;
    asked_at = at;
    asked =
        rw (t at h) (laws.asked interval burst _ 0 at (omega arith) (laws.fresh interval burst 0));
    near = n;
    past = omega arith;
  }
  Held-allow (some v) bucket clock seen at h n t = record {
    same = refl;
    asked_at = at;
    asked = laws.asked interval burst bucket t.asked_at at (omega (arith, t.past)) t.asked;
    near = n;
    past = omega arith;
  }

  -- Time passes for the clients that do not ask.
  Tracks-later :
      (o : Option (Visitor lib)) (bucket : lib.Limiter) (clock t : ℕ)
      → clock ≤ t
      → Tracks clock bucket o
      → Tracks t bucket o
  Tracks-later none bucket clock t h k = λ s g. k s (omega arith)
  Tracks-later (some v) bucket clock t h k = record {
    same = k.same;
    asked_at = k.asked_at;
    asked = k.asked;
    near = k.near;
    past = omega (arith, k.past);
  }

  -- A client that a sweep forgets has a full bucket.
  Tracks-keep :
      (o : Option (Visitor lib)) (bucket : lib.Limiter) (clock now : ℕ)
      → burst * interval ≤ minute
      → Tracks clock bucket o
      → Tracks (max clock now) bucket (keep lib (now - 3 * minute) o)
  Tracks-keep none bucket clock now full k = λ s g. k s (omega arith)
  Tracks-keep (some v) bucket clock now full k =
      elim (Bool-cases (ltb v.last_seen (now - 3 * minute))) [
        | inl old ↦ rw old (λ s g.
            laws.refills interval burst bucket k.asked_at s k.asked
              (omega (arith, k.near, ltb→lt _ _ old)))
        | inr recent ↦ rw recent (Tracks-later (some v) bucket clock _ (omega arith) k)
      ]

  record Refines (clock : ℕ) (b : String → lib.Limiter) (l : IpRateLimiter lib) : Type 0 where
    rate : l.rate ≡ interval
    burst_size : l.burst ≡ burst
    tracks : (ip : String) → Tracks clock (b ip) (l.visitors ip)

  Tracks-put :
      (ip key : String) (b : String → lib.Limiter) (l : IpRateLimiter lib) (clock seen at : ℕ)
      → clock ≤ at
      → at ≤ seen + 2 * minute
      → Refines clock b l
      → Tracks at
          (put_bucket lib ip (lib.allow (b ip) at).1 b key)
          ((allow lib ip seen at l).1.visitors key)
  unfolding allow
  Tracks-put ip key b l clock seen at h n r =
      rw (Tracks-allow l (l.visitors ip) (b ip) clock at r.rate r.burst_size h (r.tracks ip))
        (elim (Bool-cases (str_eq ip key)) [
          | inl same ↦ rw same (Held-allow (l.visitors ip) (b ip) clock seen at h n (r.tracks ip))
          | inr other ↦ rw other (Tracks-later (l.visitors key) (b key) clock at h (r.tracks key))
        ])

  Refines-allow :
      (ip : String) (b : String → lib.Limiter) (l : IpRateLimiter lib) (clock seen at : ℕ)
      → clock ≤ at
      → at ≤ seen + 2 * minute
      → Refines clock b l
      → Refines at (put_bucket lib ip (lib.allow (b ip) at).1 b) (allow lib ip seen at l).1
  unfolding allow
  Refines-allow ip b l clock seen at h n r = record {
    rate = r.rate;
    burst_size = r.burst_size;
    tracks = λ key. Tracks-put ip key b l clock seen at h n r;
  }

  Refines-tick :
      (b : String → lib.Limiter) (l : IpRateLimiter lib) (clock now : ℕ)
      → burst * interval ≤ minute
      → Refines clock b l
      → Refines (max clock now) b (tick lib now l)
  unfolding tick
  Refines-tick b l clock now full r = record {
    rate = r.rate;
    burst_size = r.burst_size;
    tracks = λ ip. Tracks-keep (l.visitors ip) (b ip) clock now full (r.tracks ip);
  }

  allow-answer :
      (ip : String) (b : String → lib.Limiter) (l : IpRateLimiter lib) (clock seen at : ℕ)
      → clock ≤ at
      → Refines clock b l
      → (allow lib ip seen at l).0 ≡ (lib.allow (b ip) at).0
  unfolding allow
  allow-answer ip b l clock seen at h r =
      ap (λ x. x.0)
        (Tracks-allow l (l.visitors ip) (b ip) clock at r.rate r.burst_size h (r.tracks ip))

  decisions-Refines :
      (clock : ℕ) (b : String → lib.Limiter) (l : IpRateLimiter lib) (es : List Event)
      → burst * interval ≤ minute
      → Refines clock b l
      → WellTimed clock es
      → decisions lib l es ≡ bucket_decisions lib b es
  unfolding decisions bucket_decisions
  decisions-Refines clock b l [] full r w = refl
  decisions-Refines clock b l (ask ip seen at ∷ es) full r (early, order, near, w) =
      ap₂ (λ x xs. x ∷ xs) (allow-answer ip b l clock seen at (omega arith) r)
        (decisions-Refines at _ _ es full (Refines-allow ip b l clock seen at (omega arith) near r)
          w)
  decisions-Refines clock b l (sweep now ∷ es) full r w =
      decisions-Refines (max clock now) b _ es full (Refines-tick b l clock now full r) w

-- At time 0 every bucket is new.
abbrev StartsNew : (lib : Limiters) → LimiterLaws lib → ℤ → IpRateLimiter lib → Type 0
StartsNew lib laws rpm l =
    Refines lib laws (minute / pos_part rpm) (pos_part rpm) 0
      (λ ip. lib.new_limiter (minute / pos_part rpm) (pos_part rpm)) l

new_ip_rate_limiter_per_minute-StartsNew :
    (lib : Limiters) (laws : LimiterLaws lib) (rpm : ℤ) (l : IpRateLimiter lib)
    → new_ip_rate_limiter_per_minute lib rpm ≡ some l
    → StartsNew lib laws rpm l
unfolding new_ip_rate_limiter_per_minute
new_ip_rate_limiter_per_minute-StartsNew lib laws rpm l made = elim (Bool-cases (is_positive rpm)) [
  | inl p ↦
      subst (StartsNew lib laws rpm) (some-injective _ l (rw p at made))
        (record { rate = refl; burst_size = refl; tracks = λ ip t h. refl })
  | inr n ↦ absurd (none-ne-some l (rw n at made))
]

-- Whatever the clients ask and whenever the sweep runs, the limiter answers as one bucket for each
-- client would that is never forgotten: a sweep changes no decision, and no client's requests
-- change another's. The requests are well timed, and the buckets refill as documented.
pub decisions-eq-bucket_decisions :
    (lib : Limiters) (rpm : ℤ) (l : IpRateLimiter lib) (es : List Event)
    → LimiterLaws lib
    → new_ip_rate_limiter_per_minute lib rpm ≡ some l
    → WellTimed 0 es
    → decisions lib l es
      ≡ bucket_decisions lib (λ ip. lib.new_limiter (minute / pos_part rpm) (pos_part rpm)) es
decisions-eq-bucket_decisions lib rpm l es laws made w =
    decisions-Refines lib laws (minute / pos_part rpm) (pos_part rpm) 0 _ l es
      (mul-div-le minute (pos_part rpm))
      (new_ip_rate_limiter_per_minute-StartsNew lib laws rpm l made) w
