-- ===== src/Cache/Laws.antt =====
-- What the cache client answers, nil receivers included.
use ginblade.Prelude.{◌≡◌, refl, String, Option, none, some, arith}
use ginblade.Prelude.Int.{ℤ}
use ginblade.Errors.{GoError, ok}
use ginblade.Context.{Context}
use ginblade.Cache.{Redis, found, Client, underlying, get, set, set_conn, set_result}

-- A value that was set is found again, as documented for SET and GET, before it expires.
pub record RedisLaws {S : Type 0} (redis : Redis S) : Type 0 where
  pub finds :
      (conn : redis.Conn) (ctx : Context) (key value : String) (ttl : ℤ) (s s' : S)
      → redis.set conn ctx key value ttl s ≡ (none, s')
      → redis.get conn ctx key s' ≡ found value

module _ {S : Type 0} (redis : Redis S) where
  set_result-eq-none :
      (r : Option GoError × S) (s' : S) → set_result redis r ≡ (none, s') → r ≡ (none, s')
  set_result-eq-none (none, s) s' h = h
  set_result-eq-none (some e, s) s' h = absurd (ground arith)

  set_conn-eq-none :
      (o : Option redis.Conn) (ctx : Context) (key value : String) (ttl : ℤ) (s s' : S)
      → set_conn redis o ctx key value ttl s ≡ (none, s')
      → (conn : redis.Conn) × (o ≡ some conn) × (redis.set conn ctx key value ttl s ≡ (none, s'))
  set_conn-eq-none none ctx key value ttl s s' h = absurd (ground arith)
  set_conn-eq-none (some conn) ctx key value ttl s s' h = (conn, refl, set_result-eq-none _ s' h)

  -- A Set that reports no error is read back by a Get of the same key on the same client.
  pub get-set :
      (c : Option (Client redis)) (ctx : Context) (key value : String) (ttl : ℤ) (s s' : S)
      → RedisLaws redis
      → set redis c ctx key value ttl s ≡ (none, s')
      → get redis c ctx key s' ≡ ok value
  unfolding get set
  get-set c ctx key value ttl s s' laws h =
      let (conn, has, stored) = set_conn-eq-none (underlying redis c) ctx key value ttl s s' h in
      rw has (rw (laws.finds conn ctx key value ttl s s' stored))
