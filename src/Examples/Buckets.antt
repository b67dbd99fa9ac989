-- ===== src/Examples/Buckets.antt =====
-- A concrete rate limiter: a bucket of credit, in nanoseconds, up to its burst.
use Prim.Native.Nat.{min, max}
use ginblade.Prelude.{ℕ, ◌+◌, ◌-◌, ◌*◌, ◌≤◌, ◌≡◌, refl, ◌∙◌, Bool, leb, if◌then◌else◌, arith}
use ginblade.Middleware.RateLimit.Library.{Limiters, LimiterLaws}

pub record Bucket : Type 0 where
  pub interval : ℕ
  pub burst : ℕ
  pub credit : ℕ
  pub last : ℕ

abbrev pub credit_at : Bucket → ℕ → ℕ
credit_at b t = min (b.burst * b.interval) (b.credit + (t - b.last))

-- The bucket after a request that finds this credit.
abbrev settle : ℕ → ℕ → ℕ → ℕ → Bool × Bucket
settle interval burst credit last = (
  leb interval credit,
  record {
    interval = interval;
    burst = burst;
    credit = if leb interval credit then credit - interval else credit;
    last = last;
  },
)

abbrev pub take_token : Bucket → ℕ → Bool × Bucket
take_token b t = settle b.interval b.burst (credit_at b t) (max b.last t)

abbrev pub full_bucket : ℕ → ℕ → Bucket
full_bucket interval burst = record {
  interval = interval;
  burst = burst;
  credit = burst * interval;
  last = 0;
}

abbrev pub toy_limiters : Limiters
toy_limiters = record { Limiter = Bucket; new_limiter = full_bucket; allow = take_token }

abbrev Asked : ℕ → ℕ → Bucket → ℕ → Type 0
Asked interval burst b t =
    (b.interval ≡ interval) × (b.burst ≡ burst) × (b.last ≤ t) × (b.credit ≤ burst * interval)

asked_lem :
    (interval burst : ℕ) (b : Bucket) (s t : ℕ)
    → s ≤ t
    → Asked interval burst b s
    → Asked interval burst (take_token b t).1 t
asked_lem interval burst b s t early (i, u, l, c) = ground arith

refilled : (cap credit last s t : ℕ) → last ≤ s → s + cap ≤ t → min cap (credit + (t - last)) ≡ cap
refilled cap credit last s t h k = omega arith

settle_lem :
    {i i' u u' c c' l l' : ℕ}
    → i ≡ i'
    → u ≡ u'
    → c ≡ c'
    → l ≡ l'
    → settle i u c l ≡ settle i' u' c' l'
settle_lem {i} {i'} {u} {u'} {c} {c'} {l} {l'} a b d e = rw (a, b, d, e)

credit_lem :
    (interval burst : ℕ) (b : Bucket) (s t : ℕ)
    → Asked interval burst b s
    → s + burst * interval ≤ t
    → credit_at b t ≡ credit_at (full_bucket interval burst) t
credit_lem interval burst b s t (i, u, l, c) late =
    rw (i, u) (refilled (burst * interval) b.credit b.last s t l late ∙ omega arith)

refills_lem :
    (interval burst : ℕ) (b : Bucket) (s t : ℕ)
    → Asked interval burst b s
    → s + burst * interval ≤ t
    → take_token b t ≡ take_token (full_bucket interval burst) t
refills_lem interval burst b s t (i, u, l, c) late =
    settle_lem i u (credit_lem interval burst b s t (i, u, l, c) late) (omega arith)

pub toy_limiters-LimiterLaws : LimiterLaws toy_limiters
toy_limiters-LimiterLaws = record {
  AskedBy = Asked;
  later = λ interval burst b s t early (i, u, l, c). (i, u, omega arith, c);
  fresh = λ interval burst t. (refl, refl, omega arith, omega arith);
  asked = asked_lem;
  refills = refills_lem;
}
