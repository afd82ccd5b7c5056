-- ===== src/Candidate/Tests/Server.antt =====
-- A server with a finite map from keys to values and revisions, which answers every call. It meets
-- what is asked of a server.
use mathlib.Core.List.{Memᴰ}
use gee_h.Prelude.{
  ℕ, suc, ◌≤◌, ◌≡◌, ◌≢◌, refl, sym, ap, ◌∙◌, ◌⊎◌, Bool-cases, true, false, Option, none, some, List,
  [], ◌∷◌, arith, leb, ◌==◌, if◌then◌else◌, bytes_eq, bytes_eq_refl, Option-cases, inl, inr,
}
use gee_h.Effect.{Completion}
use gee_h.Etcd.{
  KeyValue, RequestOp, not_set, range_op, delete_range_op, TxnRequest, TxnResponse, RangeRequest,
  RangeResponse,
}
use gee_h.Candidate.Campaign.Node.{EtcdTxn, revision_at, found}
use gee_h.Candidate.Election.{EtcdRange, selects}

-- `entry k` is the value of a key and the revision before the one that created it.
pub record Store : Type 0 where
  pub revision : ℕ
  pub entry : List ℕ → Option (List ℕ × ℕ)

abbrev entry_at : List ℕ → Option (List ℕ × ℕ) → Option KeyValue
entry_at k none = none
entry_at k (some (v, n)) = some (record { key = k; value = v; create_revision = suc n })

abbrev pub lookup : Store → List ℕ → Option KeyValue
lookup w k = entry_at k (w.entry k)

abbrev origin : Option (List ℕ × ℕ) → ℕ → ℕ
origin none n = n
origin (some (v, m)) n = m

abbrev written : Store → TxnRequest → Store
written w req = record {
  revision = suc w.revision;
  entry = λ k.
      if bytes_eq req.put_key k
      then some (req.put_value, origin (w.entry req.put_key) w.revision)
      else w.entry k;
}

abbrev failed : Store → RequestOp → List (List KeyValue)
failed w not_set = []
failed w (range_op k) = found (lookup w k) ∷ []
failed w (delete_range_op k) = []

abbrev done : TxnResponse → Completion TxnResponse
done r = record { ok = true; status = 0; response = r }

abbrev pub call : Store → TxnRequest → Store × Completion TxnResponse
call w req =
    if revision_at (lookup w req.compare_key) == req.compare_create_revision
    then (
      written w req,
      done (record { revision = suc w.revision; succeeded = true; responses = [] }),
    )
    else (
      w,
      done (record { revision = w.revision; succeeded = false; responses = failed w req.failure }),
    )

entry_key : (w : Store) (k : List ℕ) (kv : KeyValue) → lookup w k ≡ some kv → kv.key ≡ k
entry_key w k kv e = elim (Option-cases (w.entry k)) [
  | inl n ↦ ground arith
  | inr (a, s) ↦ ground arith
]

pub call-EtcdTxn : EtcdTxn lookup call
call-EtcdTxn = record {
  entry_key = entry_key;
  entry_created = λ w k kv e. ground arith;
  on_equal = λ w req r e h. ground (arith, bytes_eq_refl req.put_key);
  on_other = λ w req r e h. ground arith;
  on_other_range = λ w req r k e h f. ground arith;
}

-- The selected entry with the largest revision.
abbrev pick : KeyValue → List KeyValue → List KeyValue
pick kv [] = kv ∷ []
pick kv (j ∷ js) = if leb j.create_revision kv.create_revision then kv ∷ [] else j ∷ []

abbrev best : RangeRequest → List KeyValue → List KeyValue
best req [] = []
best req (kv ∷ kvs) = let rest = best req kvs in if selects req kv then pick kv rest else rest

abbrev pub all_keys : List KeyValue → List KeyValue
all_keys kvs = kvs

abbrev pub range : List KeyValue → RangeRequest → RangeResponse
range kvs req = record { revision = 9; kvs = best req kvs }

pick-cons : (kv : KeyValue) (js : List KeyValue) → pick kv js ≢ []
pick-cons kv [] e = ground arith
pick-cons kv (j ∷ js) e = ground arith

none_selected :
    (kvs : List KeyValue) (req : RangeRequest) (kv : KeyValue)
    → best req kvs ≡ []
    → Memᴰ kv kvs
    → selects req kv ≡ false
none_selected [] req kv e m = elim m [ ]
none_selected (j ∷ js) req kv e (Memᴰ.head p) = rw p (ground (arith, pick-cons j (best req js)))
none_selected (j ∷ js) req kv e (Memᴰ.tail m) =
    none_selected js req kv (ground (arith, pick-cons j (best req js))) m

abbrev IsShort : RangeRequest → List KeyValue → Type 0
IsShort req xs = (xs ≡ []) ⊎ ((j : KeyValue) × (xs ≡ j ∷ []) × (selects req j ≡ true))

best-IsShort : (kvs : List KeyValue) (req : RangeRequest) → IsShort req (best req kvs)
best-IsShort [] req = inl refl
best-IsShort (i ∷ is) req = elim (Bool-cases (selects req i)) [
  | inl s ↦ elim (best-IsShort is req) [
    | inl e ↦ inr (i, rw (s, e), s)
    | inr (j, e, t) ↦ elim (Bool-cases (leb j.create_revision i.create_revision)) [
      | inl b ↦ inr (i, rw (s, e, b), s)
      | inr b ↦ inr (j, rw (s, e, b), t)
    ]
  ]
  | inr s ↦ rw s (best-IsShort is req)
]

limited :
    (kvs : List KeyValue) (req : RangeRequest) (kv : KeyValue) (js : List KeyValue)
    → best req kvs ≡ kv ∷ js
    → js ≡ []
limited kvs req kv js e = elim (best-IsShort kvs req) [ inl n ↦ cc | inr (j, f, t) ↦ cc ]

head_path : (a b : KeyValue) (xs ys : List KeyValue) → a ∷ xs ≡ b ∷ ys → a ≡ b
head_path a b xs ys p = cc

selected :
    (kvs : List KeyValue) (req : RangeRequest) (kv : KeyValue) (js : List KeyValue)
    → best req kvs ≡ kv ∷ js
    → selects req kv ≡ true
selected kvs req kv js e = elim (best-IsShort kvs req) [
  | inl n ↦ cc
  | inr (j, f, t) ↦ rw (head_path kv j js [] (sym e ∙ f)) t
]

abbrev Bounds : ℕ → List KeyValue → Type 0
Bounds n xs = (j : KeyValue) × (xs ≡ j ∷ []) × (n ≤ j.create_revision)

pick-Bounds : (i : KeyValue) (n : ℕ) (xs : List KeyValue) → Bounds n xs → Bounds n (pick i xs)
pick-Bounds i n xs (j, e, b) = elim (Bool-cases (leb j.create_revision i.create_revision)) [
  | inl le ↦ (i, rw (e, le), ground arith)
  | inr gt ↦ (j, rw (e, gt), b)
]

pick-Bounds_self :
    (i : KeyValue) (req : RangeRequest) (xs : List KeyValue)
    → IsShort req xs
    → Bounds i.create_revision (pick i xs)
pick-Bounds_self i req xs (inl e) = (i, rw e, omega arith)
pick-Bounds_self i req xs (inr (j, e, t)) =
    elim (Bool-cases (leb j.create_revision i.create_revision)) [
      | inl le ↦ (i, rw (e, le), omega arith)
      | inr gt ↦ (j, rw (e, gt), ground arith)
    ]

best-Bounds :
    (kvs : List KeyValue) (req : RangeRequest) (other : KeyValue)
    → Memᴰ other kvs
    → selects req other ≡ true
    → Bounds other.create_revision (best req kvs)
best-Bounds [] req other m s = elim m [ ]
best-Bounds (i ∷ is) req other (Memᴰ.head p) s =
    rw p (
      rw (ap (selects req) (sym p) ∙ s)
        (pick-Bounds_self i req (best req is) (best-IsShort is req)))
best-Bounds (i ∷ is) req other (Memᴰ.tail m) s = elim (Bool-cases (selects req i)) [
  | inl t ↦ rw t (pick-Bounds i other.create_revision (best req is) (best-Bounds is req other m s))
  | inr f ↦ rw f (best-Bounds is req other m s)
]

largest :
    (kvs : List KeyValue) (req : RangeRequest) (kv other : KeyValue) (js : List KeyValue)
    → best req kvs ≡ kv ∷ js
    → Memᴰ other kvs
    → selects req other ≡ true
    → other.create_revision ≤ kv.create_revision
largest kvs req kv other js e m s =
    let (j, f, b) = best-Bounds kvs req other m s in
    ground (arith, head_path kv j js [] (sym e ∙ f))

picked :
    (i k : KeyValue) (xs ks : List KeyValue)
    → pick i xs ≡ k ∷ ks
    → (k ≡ i) ⊎ ((ls : List KeyValue) × (xs ≡ k ∷ ls))
picked i k [] ks e = inl (head_path k i ks [] (sym e))
picked i k (j ∷ js) ks e = elim (Bool-cases (leb j.create_revision i.create_revision)) [
  | inl b ↦ inl (head_path k i ks [] (sym (simp b at e)))
  | inr b ↦ inr (js, ap (λ x. x ∷ js) (head_path j k [] ks (simp b at e)))
]

present :
    (kvs : List KeyValue) (req : RangeRequest) (kv : KeyValue) (js : List KeyValue)
    → best req kvs ≡ kv ∷ js
    → Memᴰ kv kvs
present [] req kv js e = absurd (ground arith)
present (i ∷ is) req kv js e = elim (Bool-cases (selects req i)) [
  | inl s ↦ elim (picked i kv (best req is) js (simp s at e)) [
    | inl same ↦ Memᴰ.head same
    | inr (ls, f) ↦ Memᴰ.tail (present is req kv ls f)
  ]
  | inr s ↦ Memᴰ.tail (present is req kv js (simp s at e))
]

pub range-EtcdRange : EtcdRange all_keys range
range-EtcdRange = record {
  none_selected = none_selected;
  limited = λ w req kv kvs l e. limited w req kv kvs e;
  selected = selected;
  present = present;
  largest = λ w req kv other kvs o t e m s. largest w req kv other kvs e m s;
}
