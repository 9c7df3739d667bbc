-- ===== src/Env/World/Steps.antt =====
-- The runtime as a machine: the operations on tables, and the collector, in any order.
use tcvm.Common.{ℕ, suc, ◌<◌, ◌≡◌, refl, sym, ap, ◌∙◌, subst, arith, Bool, false, not, Option}
use tcvm.Common.{none, some, []}
use tcvm.Env.{put-all, put_self, put-ne}
use tcvm.Env.Value.{Value, nil, is_nil, of_string}
use tcvm.Env.Strings.{metamethod_bit_of_bytes}
use tcvm.Env.Shape.{Heap, initial, has_mm, root_empty, dict_sentinel_of}
use tcvm.Env.Shape.Valid.{layout, Layout, Ok, Good, Valid, Grows}
use tcvm.Env.Shape.Edges.{fresh-Good, dictionary-Ok}
use tcvm.Env.Table.{Context, TableState, raw_get, new}
use tcvm.Env.Table.Valid.{TableOk, Plain}
use tcvm.Env.Table.Reads.{get_string_key_total}
use tcvm.Env.Table.Whole.{Fits}
use tcvm.Env.Table.Named.{BitsOnly-Valid, BitsOnly-Grows, Grows-TableOk}
use tcvm.Env.Table.Bits.{BitsOnly}
use tcvm.Env.World.Writes.{Agrees-Grows, Mirrors-same, table_raw_set_lem}
use tcvm.Env.World.{World, new_table, table_raw_set, set_metatable, get_metamethod, start}
use tcvm.Env.World.Valid.{Interned, Mirrors, Agrees, WorldOk}
use tcvm.Env.World.Seeds.{raw_get-of_string}
use tcvm.Env.World.Shapes.{Exists, set_metatable_lem}

-- One operation. The collector frees shapes that it does not reach, whichever those are.
pub data Step (c : Context) (w : World) : World → Type 0 where
  create : Step c w ((new_table w).1)
  write :
      {w' : World} (i : ℕ) (key value : Value)
      → i < w.table_count
      → Plain value
      → is_nil key ≡ false
      → Fits c (w.tables i) key
      → table_raw_set c i key value w ≡ some w'
      → Step c w w'
  adopt :
      {w' : World} (i : ℕ) (mt : Option ℕ)
      → i < w.table_count
      → Exists w mt
      → set_metatable c i mt w ≡ some w'
      → Step c w w'
  collect : (freed : ℕ → Bool) → Step c w (record w { heap = record (w.heap) { freed = freed } })

pub data Reachable (c : Context) : World → Type 0 where
  started : Reachable c start
  next : {w w' : World} → Reachable c w → Step c w w' → Reachable c w'

pub initial-Valid : Valid initial
unfolding initial root_empty dict_sentinel_of
initial-Valid = record {
  shapes_ok =
      put-all (λ s d. s < 2 → Good initial d) (λ s. root_empty) 1 (dict_sentinel_of none)
        (λ b.
          fresh-Good initial (dict_sentinel_of none) (dictionary-Ok none) (λ k. refl) (λ m. refl))
        (λ s ne b. fresh-Good initial root_empty root-Ok (λ k. refl) (λ m. refl));
  sentinels = λ c s e. absurd (ground (arith, e));
  empty_ok = (
    omega arith,
    ap layout
        (put-ne (λ (s : ℕ). root_empty) {i = 1} {j = 0} (dict_sentinel_of none) (omega arith)),
  );
  empty_dict_ok =
      (omega arith, ap layout (put_self (λ (s : ℕ). root_empty) 1 (dict_sentinel_of none)));
}
  where
    root-Ok : Ok (layout root_empty)
    root-Ok = record {
      counted = refl;
      numbered = tt;
      distinct = tt;
      bounded = omega arith;
      dict_empty = λ t. absurd (ground (arith, t));
    }

start-WorldOk : (c : Context) → WorldOk c start
unfolding start
start-WorldOk c = record {
  valid = initial-Valid;
  tables_ok = λ i b. absurd (omega arith);
  mirrored = λ i b. absurd (omega arith);
  allocated = λ i e b. absurd (omega arith);
  agree = λ i e b. absurd (omega arith);
  owned = λ i j e b. absurd (omega arith);
}

new_table-WorldOk : (c : Context) (w : World) → WorldOk c w → WorldOk c ((new_table w).1)
unfolding new_table new
new_table-WorldOk c w ok = record {
  valid = ok.valid;
  tables_ok =
      put-all (λ j t. j < suc w.table_count → TableOk w.heap t) w.tables n t (λ b. empty)
        (λ j ne b. ok.tables_ok j (omega arith));
  mirrored =
      put-all
        (λ j u. j < suc w.table_count → Mirrors w' u.metatable ((w.heap).shapes u.shape).mt_cache)
        w.tables n t (λ b. ap (λ (l : Layout). l.mt_cache) lay)
        (λ j ne b. Mirrors-same w w' _ _ _ (omega arith) keeps refl (ok.mirrored j (omega arith)));
  allocated =
      put-all
        (λ j u. (e : ℕ) → j < suc w.table_count → u.mt_cache ≡ some e → e < (w.heap).cache_count)
        w.tables n t (λ e b own. absurd (ground (arith, own)))
        (λ j ne e b own. ok.allocated j e (omega arith) own);
  agree =
      put-all (λ j u. (e : ℕ) → j < suc w.table_count → u.mt_cache ≡ some e → Agrees c w.heap u e)
        w.tables n t (λ e b own. absurd (ground (arith, own)))
        (λ j ne e b own. ok.agree j e (omega arith) own);
  owned = λ i j e bi bj own_i own_j.
      let (in_i, old_i) = was i e bi own_i in
      let (in_j, old_j) = was j e bj own_j in ok.owned i j e in_i in_j old_i old_j;
}
  where
    n : ℕ
    n = w.table_count

    t : TableState
    t = new (w.heap).empty_shape

    w' : World
    w' = (new_table w).1

    lay :
        layout ((w.heap).shapes ((w.heap).empty_shape))
        ≡ record { descriptors = []; slot_count = 0; mt_cache = none; is_dict = false }
    lay = ok.valid.empty_ok.1

    keeps :
        (m e : ℕ)
        → m < w.table_count
        → (w.tables m).mt_cache ≡ some e
        → (w'.tables m).mt_cache ≡ some e
    keeps m e below own =
        ap (λ (u : TableState). u.mt_cache) (put-ne w.tables t (omega arith)) ∙ own

    empty : TableOk w.heap t
    empty = record {
      shape_in = ok.valid.empty_ok.0;
      fast = λ e. ap (λ (l : Layout). l.is_dict) lay;
      counted = λ e. sym (ap (λ (l : Layout). l.slot_count) lay);
      slow = λ m e. absurd (ground (arith, e));
      plain = λ i v e. absurd (ground (arith, e));
    }

    was :
        (j e : ℕ)
        → j < suc w.table_count
        → (w'.tables j).mt_cache ≡ some e
        → (j < w.table_count) × ((w.tables j).mt_cache ≡ some e)
    was j e =
        put-all
          (λ k u.
            k < suc w.table_count
            → u.mt_cache ≡ some e
            → (k < w.table_count) × ((w.tables k).mt_cache ≡ some e))
          w.tables n t (λ b own. absurd (ground (arith, own))) (λ k ne b own. (omega arith, own)) j

collect-WorldOk :
    (c : Context) (w : World) (freed : ℕ → Bool)
    → WorldOk c w
    → WorldOk c (record w { heap = record (w.heap) { freed = freed } })
collect-WorldOk c w freed ok = record {
  valid = BitsOnly-Valid only ok.valid;
  tables_ok = λ i b. Grows-TableOk grows (ok.tables_ok i b);
  mirrored =
      λ i b. Mirrors-same w w' _ _ _ (omega arith) (λ m e in_w own. own) refl (ok.mirrored i b);
  allocated = ok.allocated;
  agree = λ i e b own.
      Agrees-Grows c w.heap h' (w.tables i) e grows ((ok.tables_ok i b).shape_in) (λ bit. refl)
        (ok.agree i e b own);
  owned = ok.owned;
}
  where
    h' : Heap
    h' = record (w.heap) { freed = freed }

    w' : World
    w' = record w { heap = h' }

    only : BitsOnly w.heap h'
    only = record {
      shapes = refl;
      count = refl;
      cache_count = refl;
      sentinels = λ i. refl;
      empty = refl;
      empty_dict = refl;
    }

    grows : Grows w.heap h'
    grows = BitsOnly-Grows only

some-WorldOk :
    {c : Context} {o : Option World} (w' : World)
    → ((w : World) × (o ≡ some w) × WorldOk c w)
    → o ≡ some w'
    → WorldOk c w'
some-WorldOk w' (w, e, ok) e' =
    let same : w ≡ w' = ground (arith, e, e') in subst (WorldOk _) same ok

Step-WorldOk : (c : Context) (w w' : World) → Interned c → WorldOk c w → Step c w w' → WorldOk c w'
Step-WorldOk c w w' known ok create = new_table-WorldOk c w ok
Step-WorldOk c w w' known ok (write i key value b plain nn fits e) =
    some-WorldOk w' (table_raw_set_lem c i key value w known ok b plain nn fits) e
Step-WorldOk c w w' known ok (adopt i mt b ex e) =
    some-WorldOk w' (set_metatable_lem c i mt w known ok b ex) e
Step-WorldOk c w w' known ok (collect freed) = collect-WorldOk c w freed ok

-- Every state that the operations reach is in order.
pub Reachable-WorldOk : (c : Context) (w : World) → Interned c → Reachable c w → WorldOk c w
Reachable-WorldOk c w known started = start-WorldOk c
Reachable-WorldOk c w known (next r st) =
    Step-WorldOk c _ w known (Reachable-WorldOk c _ known r) st

-- `Table::get_metamethod` never panics.
pub get_metamethod_total :
    (c : Context) (w : World) (i s : ℕ)
    → WorldOk c w
    → i < w.table_count
    → (v : Value) × (get_metamethod c w i s ≡ some v)
unfolding get_metamethod
get_metamethod_total c w i s ok b = by_mt _ refl (ok.mirrored i b)
  where
    by_mt :
        (o : Option ℕ)
        → (w.tables i).metatable ≡ o
        → Mirrors w o ((w.heap).shapes ((w.tables i).shape)).mt_cache
        → (v : Value) × (elim o [
          | none ↦ some nil
          | some m ↦ raw_get c w.heap (w.tables m) (of_string s)
        ]
            ≡ some v)
    by_mt none e mirror = (nil, refl)
    by_mt (some m) e (m_in, cache, own, is_mt) =
        let (v, got) = get_string_key_total w.heap (w.tables m) s ok.valid (ok.tables_ok m m_in) in
        (v, raw_get-of_string c w.heap (w.tables m) s ∙ got)

-- In every state that the operations reach, the bit that the fast paths read is set exactly when
-- the metatable has the metamethod.
pub has_mm-get_metamethod :
    (c : Context) (w : World) (i s b : ℕ) (v : Value)
    → Interned c
    → Reachable c w
    → i < w.table_count
    → metamethod_bit_of_bytes (c.bytes s) ≡ some b
    → get_metamethod c w i s ≡ some v
    → has_mm w.heap ((w.tables i).shape) b ≡ not (is_nil v)
unfolding get_metamethod has_mm is_nil nil
has_mm-get_metamethod c w i s b v known r i_in e got =
    let ok = Reachable-WorldOk c w known r in by_mt ok _ _ (ok.mirrored i i_in) got
  where
    by_mt :
        WorldOk c w
        → (o mt : Option ℕ) → Mirrors w o mt
        → elim o [ none ↦ some nil | some m ↦ raw_get c w.heap (w.tables m) (of_string s) ] ≡ some v
        → elim mt [ none ↦ false | some cache ↦ ((w.heap).caches cache).bits b ] ≡ not (is_nil v)
    by_mt ok none none mirror e' =
        let nothing : nil ≡ v = ground (arith, e') in ap (λ x. not (is_nil x)) nothing
    by_mt ok none (some x) mirror e' = absurd (ground (arith, mirror))
    by_mt ok (some m) mt (m_in, cache, own, is_mt) e' =
        rw is_mt
          (ok.agree m cache m_in own s b v e (sym (raw_get-of_string c w.heap (w.tables m) s) ∙ e'))
