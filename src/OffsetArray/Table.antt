-- ===== src/OffsetArray/Table.antt =====
-- The array against the plain list of the entries that were appended to it.
use correct_gps.Base.{
  Ensures-map, ap, ◌∙◌, sym, subst, ℕ, ◌+◌, ◌-◌, ◌^◌, ◌≤◌, ◌<◌, ◌≡◌, ◌≢◌, ◌⊎◌, inl, inr, arith,
  Ensures, List, [], ◌∷◌, ◌++◌, length, length-append, All, All-append, All-map, All-Among, Among,
  Among-append, Among-last,
}
use correct_gps.OffsetArray.{OffsetData, OffsetArray, Poi, append, array_count, get_gpsxy, shift}
use correct_gps.OffsetArray.Slots.{Holds}
use correct_gps.OffsetArray.Order.{InsertedAt, Appended, inserted, repeated, append-Appended}
use correct_gps.OffsetArray.Contents.{Appended-Holds}
use correct_gps.OffsetArray.Lookup.{Answers, found, unset, get_gpsxy-Answers}

module _ {D : Type 0} where
  -- A key that the array takes after the entries: a word above zero and all their
  -- keys, and within the size of the array from the first key, while there is room.
  abbrev pub InWindow : List (OffsetData D) → ℕ → Type 0
  InWindow [] x = Unit
  InWindow (e ∷ es) x = (e.x ≤ x) × (x < e.x + array_count)

  pub record Takes (es : List (OffsetData D)) (x : ℕ) : Type 0 where
    pub room : length es < array_count
    pub positive : 0 < x
    pub word : x < 2 ^ 32
    pub window : InWindow es x
    pub above : All (λ o. o.x < x) es

  -- No key stands twice.
  abbrev pub HasNewKeys : List (OffsetData D) → Type 0
  HasNewKeys [] = Unit
  HasNewKeys (e ∷ es) = All (λ o. o.x ≢ e.x) es × HasNewKeys es

  -- A key that a lookup serves, in an array that starts with the given key.
  abbrev pub IsServed : ℕ → OffsetData D → Type 0
  IsServed first o = (0 < o.x) × (o.x < 2 ^ 32) × (first ≤ o.x) × (o.x < first + array_count)

  abbrev HasHead : OffsetArray D → List (OffsetData D) → Type 0
  HasHead a [] = Unit
  HasHead a (e ∷ es) = (a.arraylng 0).x ≡ e.x

  -- The slots in use hold the entries, and the others a zero key.
  pub record Represents (a : OffsetArray D) (es : List (OffsetData D)) : Type 0 where
    pub count : a.index ≡ length es
    pub fits : a.index ≤ array_count
    pub holds : All (Holds a) es
    pub only : (i : ℕ) → i < a.index → Among (a.arraylng i) es
    pub rest : (k : ℕ) → a.index ≤ k → (a.arraylng k).x ≡ 0
    pub head : HasHead a es
    pub served : All (IsServed (a.arraylng 0).x) es
    pub distinct : HasNewKeys es

  Among-key :
      (o : OffsetData D) (es : List (OffsetData D)) (x : ℕ)
      → All (λ p. p.x ≢ x) es
      → Among o es
      → o.x ≢ x
  Among-key o [] x h m = absurd m
  Among-key o (e ∷ es) x h (inl same) = λ k. h.0 (ap (λ (p : OffsetData D). p.x) (sym same) ∙ k)
  Among-key o (e ∷ es) x h (inr m) = Among-key o es x h.1 m

  Takes-new : (es : List (OffsetData D)) (x : ℕ) → Takes es x → All (λ o. o.x ≢ x) es
  Takes-new es x t = All-map (λ o. o.x < x) (λ o. o.x ≢ x) es (λ o h e. omega arith) t.above

  -- A slot in use has a key below the new one.
  slot-below :
      (a : OffsetArray D) (es : List (OffsetData D)) (x i : ℕ)
      → Represents a es
      → Takes es x
      → i < a.index
      → (a.arraylng i).x < x
  slot-below a es x i r t h = All-Among (λ o. o.x < x) es (a.arraylng i) t.above (r.only i h)

  HasNewKeys-last :
      (es : List (OffsetData D)) (e : OffsetData D)
      → HasNewKeys es
      → All (λ o. o.x ≢ e.x) es
      → HasNewKeys (es ++ e ∷ [])
  HasNewKeys-last [] e d h = (tt, tt)
  HasNewKeys-last (o ∷ es) e d h =
      (All-append _ es (e ∷ []) d.0 ((λ k. h.0 (sym k)), tt), HasNewKeys-last es e d.1 h.1)

  -- Two entries with one key are one.
  Among-unique :
      (es : List (OffsetData D)) (o e : OffsetData D)
      → HasNewKeys es
      → Among o es
      → Among e es
      → o.x ≡ e.x
      → o ≡ e
  Among-unique [] o e d m n k = absurd m
  Among-unique (f ∷ es) o e d (inl a) (inl b) k = a ∙ sym b
  Among-unique (f ∷ es) o e d (inl a) (inr m) k =
      absurd (Among-key e es f.x d.0 m (sym k ∙ ap (λ (p : OffsetData D). p.x) a))
  Among-unique (f ∷ es) o e d (inr m) (inl b) k =
      absurd (Among-key o es f.x d.0 m (k ∙ ap (λ (p : OffsetData D). p.x) b))
  Among-unique (f ∷ es) o e d (inr m) (inr n) k = Among-unique es o e d.1 m n k

  not_below :
      (a : OffsetArray D) (es : List (OffsetData D)) (x : ℕ)
      → Represents a es
      → InWindow es x
      → (a.arraylng 0).x ≤ x
  not_below a [] x r w = let h = r.rest 0 in let c = r.count in omega (arith, h (omega arith))
  not_below a (e ∷ es) x r w = let h = r.head in omega arith

module _ {D : Type 0} (a b : OffsetArray D) (es : List (OffsetData D)) (e : OffsetData D)
    (r : Represents a es) (t : Takes es e.x) (p : ℕ) (w : InsertedAt a b e p) where
  only_after : (i : ℕ) → i < b.index → Among (b.arraylng i) (es ++ e ∷ [])
  only_after i h = elim (order i) [
    | inl low ↦
        subst (λ o. Among o (es ++ e ∷ [])) (sym (w.before i low))
          (Among-append (a.arraylng i) es (e ∷ []) (r.only i (let k = w.inside in omega arith)))
    | inr (inl high) ↦
        let c = w.count in
        subst (λ o. Among o (es ++ e ∷ [])) (sym (w.after i high (omega arith)))
          (Among-append (a.arraylng (i - 1)) es (e ∷ []) (r.only (i - 1) (omega arith)))
    | inr (inr same) ↦
        subst (λ o. Among o (es ++ e ∷ [])) (sym (ap b.arraylng same ∙ w.at)) (Among-last e es)
  ]
    where
      order : (i : ℕ) → (i < p) ⊎ (p < i) ⊎ (i ≡ p)
      order i = omega arith

  held_after : All (Holds b) (es ++ e ∷ [])
  held_after =
      All-append (Holds b) es (e ∷ [])
        (All-map (Holds a) (Holds b) es (λ o. Appended-Holds (inserted p w)) r.holds)
        ((p, (let c = w.count in let i = w.inside in omega arith), w.at), tt)

module _ {D : Type 0} (a b : OffsetArray D) (e : OffsetData D) (p : ℕ)
    (w : InsertedAt a b e p) where
  place_empty : a.index ≡ 0 → b.arraylng 0 ≡ e
  place_empty empty = let i = w.inside in ap b.arraylng (omega arith) ∙ w.at

  place_behind : 0 < a.index → (a.arraylng 0).x ≤ e.x → b.arraylng 0 ≡ a.arraylng 0
  place_behind used le = w.before 0 (ground (arith, w.larger 0))

  head_after :
      (es : List (OffsetData D)) → Represents a es → InWindow es e.x → HasHead b (es ++ e ∷ [])
  head_after [] r h = ap (λ (o : OffsetData D). o.x) (place_empty r.count)
  head_after (f ∷ es) r h =
      let c = r.count in
      let k = r.head in
      ap (λ (o : OffsetData D). o.x) (place_behind (omega arith) (omega arith)) ∙ r.head

  served_after :
      (es : List (OffsetData D))
      → Represents a es
      → Takes es e.x
      → All (IsServed (b.arraylng 0).x) (es ++ e ∷ [])
  served_after [] r t =
      let s : (b.arraylng 0).x ≡ e.x = ap (λ (o : OffsetData D). o.x) (place_empty r.count) in
      let h1 = t.positive in let h2 = t.word in (omega arith, tt)
  served_after (f ∷ es) r t =
      let c = r.count in
      let k = r.head in
      let v = t.window in
      let s : (b.arraylng 0).x ≡ (a.arraylng 0).x =
        ap (λ (o : OffsetData D). o.x) (place_behind (omega arith) (omega arith)) in
      let h1 = t.positive in
      let h2 = t.word in
      All-append (IsServed (b.arraylng 0).x) (f ∷ es) (e ∷ [])
        (subst (λ n. All (IsServed n) (f ∷ es)) (sym s) r.served) (omega arith, tt)

  inserted-Represents :
      (es : List (OffsetData D)) → Represents a es → Takes es e.x → Represents b (es ++ e ∷ [])
  inserted-Represents es r t = record {
    count = let c = r.count in let n = w.count in omega (arith, length-append es (e ∷ []));
    fits = let c = r.count in let n = w.count in let m = t.room in omega arith;
    holds = held_after a b es e r t p w;
    only = only_after a b es e r t p w;
    rest = λ k h.
        let n = w.count in
        ap (λ (o : OffsetData D). o.x) (w.beyond k (omega arith)) ∙ r.rest k (omega arith);
    head = head_after es r t.window;
    served = served_after es r t;
    distinct = HasNewKeys-last es e r.distinct (Takes-new es e.x t);
  }

module _ {D : Type 0} (a : OffsetArray D) (es : List (OffsetData D)) where
  -- Where the array holds a list of entries, `append` with a key that the list takes ends with no
  -- fault, and the array holds the list with the new entry at its end.
  pub append-Represents :
      (e : OffsetData D)
      → Represents a es
      → Takes es e.x
      → Ensures (append a e) (λ b. Represents b (es ++ e ∷ []))
  append-Represents e r t = Ensures-map (Appended a e) _ (append a e) result (
      append-Appended a e (let c = r.count in let m = t.room in omega arith)
        (not_below a es e.x r t.window)
        (λ two. let k = slot-below a es e.x (a.index - 2) r t (omega arith) in omega arith))
    where
      result : (b : OffsetArray D) → Appended a e b → Represents b (es ++ e ∷ [])
      result b (inserted p w) = inserted-Represents a b e p w es r t
      result b (repeated i h same is) =
          absurd
            (Among-key (a.arraylng i) es e.x (Takes-new es e.x t) (r.only i (omega arith)) same)

  -- A key of the list is answered with the shift by its entry.
  pub get_gpsxy-Represents :
      (sub : D → D → D) (gpsxy baidu : Poi D) (e : OffsetData D)
      → Represents a es
      → Among e es
      → Ensures (get_gpsxy sub a gpsxy baidu e.x) (λ p. p ≡ shift sub baidu e)
  get_gpsxy-Represents sub gpsxy baidu e r m =
      Ensures-map (Answers sub a gpsxy baidu e.x) _ (get_gpsxy sub a gpsxy baidu e.x) result
        (get_gpsxy-Answers sub a gpsxy baidu e.x s.1 s.2 s.3)
    where
      s : IsServed (a.arraylng 0).x e
      s = All-Among (IsServed (a.arraylng 0).x) es e r.served m

      held : Holds a e
      held = All-Among (Holds a) es e r.holds m

      result : (p : Poi D) → Answers sub a gpsxy baidu e.x p → p ≡ shift sub baidu e
      result p (unset none_has is) = absurd (
          none_has held.0 (let f = r.fits in omega (arith, held.1))
            (ap (λ (o : OffsetData D). o.x) held.2))
      result p (found i inside same is) =
          is
          ∙ ap (shift sub baidu)
              (Among-unique es (a.arraylng i) e r.distinct (r.only i (used i same)) m same)
        where
          used : (i : ℕ) → (a.arraylng i).x ≡ e.x → i < a.index
          used i same = ground (arith, r.rest i, s)
