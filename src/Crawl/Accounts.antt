-- ===== src/Crawl/Accounts.antt =====
-- `AccountPool` of crawler/crawler/accounts/pool.py: which account of a platform is used next. The times
-- are numbers; the states that the backend has sent are a dictionary, empty where its answer raises.
use ubd_probe.Prelude.{
  ℕ, ltb, ◌≡◌, ◌≢◌, ◌⊎◌, inl, inr, refl, Bool, true, false, not, Option, none, some, List, find?,
  find?-true, All, nat_eq, list_eq, Bool-cases, Option-cases, arith,
}
use ubd_probe.Prelude.Table.{find?-none}
use ubd_probe.Prelude.Dict.{Dict, lookup, insert, lookup-insert_self}
use ubd_probe.Prelude.Text.{Text}

pub data AccountState : Type 0 where
  active cooldown banned : AccountState

pub record Account : Type 0 where
  pub state : AccountState
  pub cooldown_until : Option ℕ

pub record Pool : Type 0 where
  pub order : List Text
  pub states : Dict Text Account

-- An account that is unknown, or neither banned nor in a cooldown that lasts beyond this moment.
abbrev pub is_free : ℕ → Option Account → Bool
is_free now none = true
is_free now (some a) = elim a.state [
  | banned ↦ false
  | cooldown ↦ elim a.cooldown_until [ none ↦ true | some until ↦ not (ltb now until) ]
  | active ↦ true
]

-- `acquire`, by its user name
unfoldable pub acquire : ℕ → Pool → Option Text
unfolding find? lookup
acquire now pool = find? (λ name. is_free now (lookup name pool.states)) pool.order

unfoldable pub mark_banned : Text → Pool → Pool
unfolding insert
mark_banned name pool = record pool {
  states = insert name (record { state = banned; cooldown_until = none }) pool.states;
}

unfoldable pub mark_cooldown : Text → ℕ → Pool → Pool
unfolding insert
mark_cooldown name until pool = record pool {
  states = insert name (record { state = cooldown; cooldown_until = some until }) pool.states;
}

-- An account whose new state is not free is not acquired.
not_acquired :
    (now : ℕ) (name : Text) (a : Account) (pool : Pool)
    → is_free now (some a) ≡ false
    → acquire now (record pool { states = insert name a pool.states }) ≢ some name
unfolding acquire
not_acquired now name a pool busy e =
    let free : is_free now (lookup name (insert name a pool.states)) ≡ true =
      find?-true (λ other. is_free now (lookup other (insert name a pool.states))) pool.order e in
    let now_busy : is_free now (lookup name (insert name a pool.states)) ≡ false =
      rw (lookup-insert_self name a pool.states) busy in
    absurd (ground arith)

-- A banned account is never acquired again, at no time; one in a cooldown is not acquired before the
-- cooldown ends; and with no account acquired, every account of the pool is banned or cools down.
pub acquire_contract :
    (now until : ℕ) (name : Text) (pool : Pool)
    → (acquire now (mark_banned name pool) ≢ some name)
      × ((ltb now until ≡ false) ⊎ (acquire now (mark_cooldown name until pool) ≢ some name))
      × ((acquire now pool ≢ none)
          ⊎ All (λ other. is_free now (lookup other pool.states) ≡ false) pool.order)
unfolding acquire mark_banned mark_cooldown
acquire_contract now until name pool = (
  λ e. not_acquired now name (record { state = banned; cooldown_until = none }) pool refl e,
  elim (Bool-cases (ltb now until)) [
    | inr past ↦ inl past
    | inl early ↦ inr (λ e.
        not_acquired now name (record { state = cooldown; cooldown_until = some until }) pool
          (rw early refl) e)
  ],
  elim (Option-cases (acquire now pool)) [
    | inl nobody ↦
        inr (find?-none (λ other. is_free now (lookup other pool.states)) pool.order nobody)
    | inr (who, e) ↦ inl (λ nobody. ground arith)
  ],
)
