-- ===== src/Examples/Stores.antt =====
-- Concrete stores: a table of rows behind gorm, a map behind Redis, and a driver that answers.
use ginblade.Prelude.{
  sym, ◌∙◌, ltb, ℕ, ◌≡◌, refl, ap, inl, String, Option, none, some, List, ◌∷◌, length, take, drop,
  str_eq, eq_refl, if◌then◌else◌,
}
use ginblade.Prelude.Int.{pos_part}
use ginblade.Errors.{ok-injective, GoError, ok, plain}
use ginblade.Model.{Example}
use ginblade.Repository.Library.{Gorm, TransactionLaws, QueryLaws, InsertLaws}
use ginblade.Database.{Sql, LogLevel}
use ginblade.Cache.{Redis, found}
use ginblade.Cache.Laws.{RedisLaws}
use ginblade.Bootstrap.{Asynq}

abbrev pub Table : Type 0
Table = List Example

abbrev pub row : ℕ → String → Example
row id name = record { id = id; name = name; created_at = 0; updated_at = 0 }

-- The commit of more than two rows fails.
abbrev full : Table → Option GoError
full s = if ltb 2 (length s) then some (plain "too many rows") else none

abbrev commit_checked : Table → Table → Option GoError → Option GoError × Table
commit_checked s s' none = (none, s')
commit_checked s s' (some e) = (some e, s)

abbrev commit : Table → Option GoError × Table → Option GoError × Table
commit s (none, s') = commit_checked s s' (full s')
commit s (some e, s') = (some e, s)

abbrev pub toy_gorm : Gorm Table
toy_gorm = record {
  transaction = λ db ctx fn s. commit s (fn db s);
  create = λ db ctx e s. (ok e, e ∷ s);
  count = λ db ctx s. (ok (length s), s);
  find_newest = λ db ctx limit offset s. (ok (take (pos_part limit) (drop (pos_part offset) s)), s);
}

pub rolls_back_lem :
    (s : Table) (p : Option GoError × Table) (e : GoError) → p.0 ≡ some e → commit s p ≡ (some e, s)
rolls_back_lem s (some x, s') e h = rw h
rolls_back_lem s (none, s') e h = cc

pub commits_lem :
    (s after : Table) (p : Option GoError × Table)
    → p ≡ (none, after)
    → full after ≡ none
    → commit s p ≡ (none, after)
commits_lem s after p h fine = rw (h, fine)

pub commit_fails_lem :
    (s after : Table) (p : Option GoError × Table) (e : GoError)
    → p ≡ (none, after)
    → full after ≡ some e
    → commit s p ≡ (some e, s)
commit_fails_lem s after p e h failed = rw (h, failed)

abbrev pub toy_gorm-TransactionLaws : TransactionLaws toy_gorm
toy_gorm-TransactionLaws = record {
  handle = λ db ctx s. db;
  rolls_back = λ db ctx fn s e h. rolls_back_lem s (fn db s) e h;
  commit_error = full;
  commits = λ db ctx fn s after h fine. commits_lem s after (fn db s) h fine;
  commit_fails = λ db ctx fn s after e h failed. commit_fails_lem s after (fn db s) e h failed;
}

abbrev pub toy_gorm-QueryLaws : QueryLaws toy_gorm
toy_gorm-QueryLaws = record {
  newest_first = λ db s. s;
  counts = λ db ctx s. inl refl;
  finds = λ db ctx limit offset s. inl refl;
}

pub toy_gorm-InsertLaws : InsertLaws toy_gorm-QueryLaws
toy_gorm-InsertLaws = record {
  inserts = λ db ctx e row s s' h. (
    ap (λ x. x.name) (sym (ok-injective (ap (λ p. p.0) h))),
    sym (ap (λ p. p.1) h) ∙ ap (λ x. x ∷ s) (ok-injective (ap (λ p. p.0) h)),
  );
}

-- The keys and values of a Redis server.
abbrev pub Keys : Type 0
Keys = String → String

abbrev pub toy_redis : Redis Keys
toy_redis = record {
  Conn = Unit;
  new_client = λ cfg. tt;
  ping = λ c ctx s. none;
  get = λ c ctx key s. found (s key);
  set = λ c ctx key value ttl s. (none, λ k. if str_eq key k then value else s k);
  close = λ c s. (none, s);
}

finds_lem :
    (key value : String) (s s' : Keys)
    → (if str_eq key key then value else s key) ≡ s' key
    → found (s' key) ≡ found value
finds_lem key value s s' h = rw (← h) (rw (eq_refl key))

pub toy_redis-RedisLaws : RedisLaws toy_redis
toy_redis-RedisLaws = record {
  finds = λ c ctx key value ttl s s' h. finds_lem key value s s' (ap (λ p. p.1 key) h);
}

module _ {S : Type 0} where
  abbrev pub toy_sql : Sql S
  toy_sql = record {
    GormLogger = LogLevel;
    log_mode = λ level. level;
    open_dsn = λ dsn logger s. (ok 1, s);
    sql_error = λ db s. none;
    set_pool = λ db pool s. s;
    ping = λ db ctx s. none;
    close = λ db s. (some (plain "already closed"), s);
  }

  abbrev pub idle_redis : Redis S
  idle_redis = record {
    Conn = Unit;
    new_client = λ cfg. tt;
    ping = λ c ctx s. some (plain "connection refused");
    get = λ c ctx key s. found "";
    set = λ c ctx key value ttl s. (none, s);
    close = λ c s. (none, s);
  }

  abbrev pub toy_asynq : Asynq S
  toy_asynq = λ opt. record { enqueue = λ ctx t s. (ok "id", s); close = λ s. (none, s) }
