-- ===== src/Json/Strict.antt =====
-- What `strict` accepts: no constant anywhere, and distinct keys in every object, at every depth.
use agent_fault_lab.Prelude.{◌≡◌, refl, ◌↔◌, false, arith}
use agent_fault_lab.Exceptions.{ok, >>=-eq-ok}
use agent_fault_lab.Json.{
  Json, Raw, RawItems, Pairs, raw_null, raw_bool, raw_int, raw_negint, raw_float, raw_constant,
  raw_str, raw_arr, raw_obj, raw_nil, raw_cons, no_pair, pair, has_key, strict, strict_items,
  strict_pairs, Items, Fields, arr, obj, cons, field, end, nil, null, bool, int, negint, float, str,
}

abbrev mutual
  pub IsClean : Raw → Type 0
  IsClean (raw_constant s) = ⊥
  IsClean (raw_arr xs) = AreClean xs
  IsClean (raw_obj ps) = HasDistinct ps
  IsClean _ = Unit

  pub AreClean : RawItems → Type 0
  AreClean raw_nil = Unit
  AreClean (raw_cons x xs) = IsClean x × AreClean xs

  pub HasDistinct : Pairs → Type 0
  HasDistinct no_pair = Unit
  HasDistinct (pair k v ps) = (has_key k ps ≡ false) × IsClean v × HasDistinct ps

mutual
  unfolding strict

  sound : (r : Raw) {v : Json} → strict r ≡ ok v → IsClean r
  sound raw_null h = tt
  sound (raw_bool b) h = tt
  sound (raw_int n) h = tt
  sound (raw_negint n) h = tt
  sound (raw_float s) h = tt
  sound (raw_constant s) h = cc
  sound (raw_str s) h = tt
  sound (raw_arr xs) h =
      let (ys, e, _) = >>=-eq-ok (strict_items xs) (λ ys. ok (arr ys)) h in sound_items xs e
  sound (raw_obj ps) h =
      let (fs, e, _) = >>=-eq-ok (strict_pairs ps) (λ fs. ok (obj fs)) h in sound_pairs ps e

  sound_items : (xs : RawItems) {v : Items} → strict_items xs ≡ ok v → AreClean xs
  sound_items raw_nil h = tt
  sound_items (raw_cons x xs) h =
      let (y, e, h1) = >>=-eq-ok (strict x) _ h in
      let (ys, e1, _) = >>=-eq-ok (strict_items xs) _ h1 in (sound x e, sound_items xs e1)

  sound_pairs : (ps : Pairs) {v : Fields} → strict_pairs ps ≡ ok v → HasDistinct ps
  sound_pairs no_pair h = tt
  sound_pairs (pair k v ps) h =
      let (w, e, h1) = >>=-eq-ok (strict v) _ h in
      let (fs, e1, h2) = >>=-eq-ok (strict_pairs ps) _ h1 in
      (ground arith, sound v e, sound_pairs ps e1)

mutual
  unfolding strict

  complete : (r : Raw) → IsClean r → (v : Json) × (strict r ≡ ok v)
  complete raw_null h = (null, refl)
  complete (raw_bool b) h = (bool b, refl)
  complete (raw_int n) h = (int n, refl)
  complete (raw_negint n) h = (negint n, refl)
  complete (raw_float s) h = (float s, refl)
  complete (raw_constant s) h = elim h [ ]
  complete (raw_str s) h = (str s, refl)
  complete (raw_arr xs) h = let (ys, e) = complete_items xs h in (arr ys, rw e)
  complete (raw_obj ps) h = let (fs, e) = complete_pairs ps h in (obj fs, rw e)

  complete_items : (xs : RawItems) → AreClean xs → (v : Items) × (strict_items xs ≡ ok v)
  complete_items raw_nil h = (nil, refl)
  complete_items (raw_cons x xs) h =
      let (y, e) = complete x h.0 in let (ys, e1) = complete_items xs h.1 in (cons y ys, rw (e, e1))

  complete_pairs : (ps : Pairs) → HasDistinct ps → (v : Fields) × (strict_pairs ps ≡ ok v)
  complete_pairs no_pair h = (end, refl)
  complete_pairs (pair k v ps) h =
      let (w, e) = complete v h.1 in
      let (fs, e1) = complete_pairs ps h.2 in (field k w fs, rw (e, e1, h.0))

-- A decoded text is accepted exactly if none of the constants `NaN`, `Infinity` and `-Infinity` stands
-- anywhere in it and no object, at any depth, has a key twice.
pub strict_iff : (r : Raw) → ((v : Json) × (strict r ≡ ok v)) ↔ IsClean r
strict_iff r = (λ p. sound r p.1, complete r)
