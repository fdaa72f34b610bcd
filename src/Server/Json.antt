-- ===== src/Server/Json.antt =====
-- The JSON values that audit payloads, risk snapshots and check payloads are made of
-- (`dict[str, object]` in src/worktree_review/server/state.py).
use worktree_review.Base.{ℕ, Bool, String, Option, none, some}

mutual
  pub data Json : Type 0 where
    null : Json
    bool : Bool → Json
    num : ℕ → Json
    str : String → Json
    arr : Items → Json
    obj : Fields → Json

  pub data Items : Type 0 where
    nil : Items
    cons : Json → Items → Items

  pub data Fields : Type 0 where
    end : Fields
    field : String → Json → Fields → Fields

-- `str | None` as a value.
abbrev pub opt_str : Option String → Json
opt_str none = null
opt_str (some s) = str s
