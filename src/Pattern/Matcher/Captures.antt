-- ===== src/Pattern/Matcher/Captures.antt =====
-- The capture array below the level: what a write keeps of it.
use tcvm.Common.{ℕ, zero, suc, ◌+◌, ◌≤◌, ◌<◌, ◌≡◌, refl, ap, sym, ◌∙◌, subst, arith, some, List}
use tcvm.Common.{[], ◌∷◌, get_elem?, length, set, take}
use tcvm.Pattern.{Capture, CapLen, unfinished, position, len}
use tcvm.Pattern.Matcher.{set_kind}

-- A capture that was opened, and if closed ended, at `s` or before.
abbrev pub Fits : ℕ → ℕ → CapLen → Type 0
Fits s init unfinished = init ≤ s
Fits s init position = init ≤ s
Fits s init (len n) = init + n ≤ s

-- The first `n` captures are there and fit.
abbrev pub Below : ℕ → ℕ → List Capture → Type 0
Below s zero cs = Unit
Below s (suc n) [] = ⊥
Below s (suc n) (c ∷ cs) = Fits s c.init c.kind × Below s n cs

pub Fits-init : (s init : ℕ) (k : CapLen) → Fits s init k → init ≤ s
Fits-init s init unfinished h = h
Fits-init s init position h = h
Fits-init s init (len n) h = omega arith

Fits-le : (s s' init : ℕ) (k : CapLen) → s ≤ s' → Fits s init k → Fits s' init k
Fits-le s s' init unfinished le h = omega arith
Fits-le s s' init position le h = omega arith
Fits-le s s' init (len n) le h = omega arith

pub Below-le : (s s' n : ℕ) (cs : List Capture) → s ≤ s' → Below s n cs → Below s' n cs
Below-le s s' zero cs le h = tt
Below-le s s' (suc n) [] le h = h
Below-le s s' (suc n) (c ∷ cs) le h = (Fits-le s s' c.init c.kind le h.0, Below-le s s' n cs le h.1)

pub Below-get :
    (s n i : ℕ) (cs : List Capture) (c : Capture)
    → Below s n cs
    → i < n
    → get_elem? cs i ≡ some c
    → Fits s c.init c.kind
Below-get s zero i cs c h lt e = absurd (omega arith)
Below-get s (suc n) i [] c h lt e = absurd h
Below-get s (suc n) zero (d ∷ cs) c h lt e =
    let same : d ≡ c = cc in subst (λ (x : Capture). Fits s x.init x.kind) same h.0
Below-get s (suc n) (suc i) (d ∷ cs) c h lt e = Below-get s n i cs c h.1 (omega arith) e

pub Below-some :
    (s n i : ℕ) (cs : List Capture)
    → Below s n cs
    → i < n
    → (c : Capture) × (get_elem? cs i ≡ some c)
Below-some s zero i cs h lt = absurd (omega arith)
Below-some s (suc n) i [] h lt = absurd h
Below-some s (suc n) zero (c ∷ cs) h lt = (c, refl)
Below-some s (suc n) (suc i) (c ∷ cs) h lt = Below-some s n i cs h.1 (omega arith)

-- A capture opened at the level.
pub Below-set :
    (s n : ℕ) (cs : List Capture) (c : Capture)
    → n < length cs
    → Below s n cs
    → Fits s c.init c.kind
    → Below s (suc n) (set cs n c)
Below-set s n [] c lt h fits = absurd (omega arith)
Below-set s zero (d ∷ cs) c lt h fits = (fits, tt)
Below-set s (suc n) (d ∷ cs) c lt h fits = (h.0, Below-set s n cs c (omega arith) h.1 fits)

-- A capture closed, or opened again, below the level.
pub Below-set_kind :
    (s n i : ℕ) (cs : List Capture) (c : Capture) (k : CapLen)
    → Below s n cs
    → get_elem? cs i ≡ some c
    → Fits s c.init k
    → Below s n (set_kind cs i k)
Below-set_kind s zero i cs c k h e fits = tt
Below-set_kind s (suc n) i [] c k h e fits = h
Below-set_kind s (suc n) zero (d ∷ cs) c k h e fits =
    let same : c ≡ d = cc in (subst (λ (x : Capture). Fits s x.init k) same fits, h.1)
Below-set_kind s (suc n) (suc i) (d ∷ cs) c k h e fits =
    (h.0, Below-set_kind s n i cs c k h.1 e fits)

-- `Below` sees the first captures only.
Below-take : (s n : ℕ) (cs : List Capture) → Below s n cs → Below s n (take n cs)
Below-take s zero cs h = tt
Below-take s (suc n) [] h = h
Below-take s (suc n) (c ∷ cs) h = (h.0, Below-take s n cs h.1)

Below-untake : (s n : ℕ) (cs : List Capture) → Below s n (take n cs) → Below s n cs
Below-untake s zero cs h = tt
Below-untake s (suc n) [] h = h
Below-untake s (suc n) (c ∷ cs) h = (h.0, Below-untake s n cs h.1)

pub Below-same :
    (s n : ℕ) (cs ds : List Capture) → take n ds ≡ take n cs → Below s n cs → Below s n ds
Below-same s n cs ds e h = Below-untake s n ds (subst (Below s n) (sym e) (Below-take s n cs h))

pub length-set_kind :
    (cs : List Capture) (i : ℕ) (k : CapLen) → length (set_kind cs i k) ≡ length cs
length-set_kind [] i k = refl
length-set_kind (c ∷ cs) zero k = refl
length-set_kind (c ∷ cs) (suc i) k = ap suc (length-set_kind cs i k)

-- A write at the level is above the captures that count.
pub take-set : (n : ℕ) (cs : List Capture) (c : Capture) → take n (set cs n c) ≡ take n cs
take-set zero cs c = refl
take-set (suc n) [] c = refl
take-set (suc n) (d ∷ cs) c = ap (λ (l : List Capture). d ∷ l) (take-set n cs c)

take-take-suc : (n : ℕ) (cs : List Capture) → take n (take (suc n) cs) ≡ take n cs
take-take-suc zero cs = refl
take-take-suc (suc n) [] = refl
take-take-suc (suc n) (c ∷ cs) = ap (λ (l : List Capture). c ∷ l) (take-take-suc n cs)

-- What agrees on more captures agrees on fewer.
pub take-suc :
    (n : ℕ) (cs ds : List Capture) → take (suc n) cs ≡ take (suc n) ds → take n cs ≡ take n ds
take-suc n cs ds e = sym (take-take-suc n cs) ∙ ap (take n) e ∙ take-take-suc n ds

take-set_kind :
    (n i : ℕ) (cs : List Capture) (k : CapLen) → take n (set_kind cs i k) ≡ set_kind (take n cs) i k
take-set_kind zero i cs k = refl
take-set_kind (suc n) i [] k = refl
take-set_kind (suc n) zero (c ∷ cs) k = refl
take-set_kind (suc n) (suc i) (c ∷ cs) k = ap (λ (l : List Capture). c ∷ l) (take-set_kind n i cs k)

set_kind-set_kind :
    (i : ℕ) (cs : List Capture) (c : Capture) (k : CapLen)
    → get_elem? cs i ≡ some c
    → c.kind ≡ unfinished
    → set_kind (set_kind cs i k) i unfinished ≡ cs
set_kind-set_kind i [] c k e was = refl
set_kind-set_kind zero (d ∷ cs) c k e was =
    let same : d ≡ c = cc in
    let back : record d { kind = unfinished } ≡ d = rw (same, ← was) in
    ap (λ (x : Capture). x ∷ cs) back
set_kind-set_kind (suc i) (d ∷ cs) c k e was =
    ap (λ (l : List Capture). d ∷ l) (set_kind-set_kind i cs c k e was)

-- To close an open capture and to open it again restores what counts.
pub take-set_kind_back :
    (n i : ℕ) (cs ds : List Capture) (c : Capture) (k : CapLen)
    → get_elem? cs i ≡ some c
    → c.kind ≡ unfinished
    → take n ds ≡ take n (set_kind cs i k)
    → take n (set_kind ds i unfinished) ≡ take n cs
take-set_kind_back n i cs ds c k e was same =
    take-set_kind n i ds unfinished
    ∙ ap (λ (l : List Capture). set_kind l i unfinished) same
    ∙ sym (take-set_kind n i (set_kind cs i k) unfinished)
    ∙ ap (take n) (set_kind-set_kind i cs c k e was)
