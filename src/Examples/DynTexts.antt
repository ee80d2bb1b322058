-- ===== src/Examples/DynTexts.antt =====
-- A concrete encoding of the values of `json`: each value is a tag and what it holds, behind its depth.
use greenline.Base.{
  ℕ, zero, suc, ◌+◌, ◌≤◌, ◌≡◌, refl, ap, true, false, [], ◌∷◌, ◌++◌, arith, Text, length, take,
  drop,
}
use greenline.Dyn.{Dyn, Items, Fields}
use greenline.Kv.{IsLawful}
use greenline.Migrations.{Encoding, json}

abbrev mutual
  depth : Dyn → ℕ
  depth (Dyn.arr xs) = suc (items_depth xs)
  depth (Dyn.obj fs) = suc (fields_depth fs)
  depth _ = 1

  items_depth : Items → ℕ
  items_depth Items.nil = 1
  items_depth (Items.cons x xs) = suc (depth x + items_depth xs)

  fields_depth : Fields → ℕ
  fields_depth Fields.end = 1
  fields_depth (Fields.field k v fs) = suc (depth v + fields_depth fs)

abbrev mutual
  enc : Dyn → Text → Text
  enc Dyn.null t = 0 ∷ t
  enc (Dyn.bool true) t = 1 ∷ t
  enc (Dyn.bool false) t = 2 ∷ t
  enc (Dyn.num n) t = 3 ∷ n ∷ t
  enc (Dyn.str s) t = 4 ∷ length s ∷ (s ++ t)
  enc (Dyn.arr xs) t = 5 ∷ enc_items xs t
  enc (Dyn.obj fs) t = 6 ∷ enc_fields fs t

  enc_items : Items → Text → Text
  enc_items Items.nil t = 0 ∷ t
  enc_items (Items.cons x xs) t = 1 ∷ enc x (enc_items xs t)

  enc_fields : Fields → Text → Text
  enc_fields Fields.end t = 0 ∷ t
  enc_fields (Fields.field k v fs) t = 1 ∷ length k ∷ (k ++ enc v (enc_fields fs t))

abbrev then_item : (Text → Items × Text) → Dyn × Text → Items × Text
then_item f (d, t) = let (xs, u) = f t in (Items.cons d xs, u)

abbrev then_field : Text → (Text → Fields × Text) → Dyn × Text → Fields × Text
then_field k f (d, t) = let (fs, u) = f t in (Fields.field k d fs, u)

abbrev as_arr : Items × Text → Dyn × Text
as_arr (xs, t) = (Dyn.arr xs, t)

abbrev as_obj : Fields × Text → Dyn × Text
as_obj (fs, t) = (Dyn.obj fs, t)

abbrev mutual
  dec : ℕ → Text → Dyn × Text
  dec (suc f) (suc zero ∷ t) = (Dyn.bool true, t)
  dec (suc f) (suc (suc zero) ∷ t) = (Dyn.bool false, t)
  dec (suc f) (suc (suc (suc zero)) ∷ n ∷ t) = (Dyn.num n, t)
  dec (suc f) (suc (suc (suc (suc zero))) ∷ n ∷ t) = (Dyn.str (take n t), drop n t)
  dec (suc f) (suc (suc (suc (suc (suc zero)))) ∷ t) = as_arr (dec_items f t)
  dec (suc f) (suc (suc (suc (suc (suc (suc zero))))) ∷ t) = as_obj (dec_fields f t)
  dec (suc f) (zero ∷ t) = (Dyn.null, t)
  dec _ t = (Dyn.null, t)

  dec_items : ℕ → Text → Items × Text
  dec_items (suc f) (suc zero ∷ t) = then_item (λ u. dec_items f u) (dec f t)
  dec_items (suc f) (zero ∷ t) = (Items.nil, t)
  dec_items _ t = (Items.nil, t)

  dec_fields : ℕ → Text → Fields × Text
  dec_fields (suc f) (suc zero ∷ n ∷ t) =
      then_field (take n t) (λ u. dec_fields f u) (dec f (drop n t))
  dec_fields (suc f) (zero ∷ t) = (Fields.end, t)
  dec_fields _ t = (Fields.end, t)

take_all : (s t : Text) → take (length s) (s ++ t) ≡ s
take_all [] t = refl
take_all (c ∷ s) t = ap (λ x. c ∷ x) (take_all s t)

drop_all : (s t : Text) → drop (length s) (s ++ t) ≡ t
drop_all [] t = refl
drop_all (c ∷ s) t = drop_all s t

mutual
  dec-enc : (f : ℕ) (d : Dyn) (t : Text) → depth d ≤ f → dec f (enc d t) ≡ (d, t)
  dec-enc zero Dyn.null t h = absurd (omega (arith, h))
  dec-enc zero (Dyn.bool b) t h = absurd (omega (arith, h))
  dec-enc zero (Dyn.num n) t h = absurd (omega (arith, h))
  dec-enc zero (Dyn.str s) t h = absurd (omega (arith, h))
  dec-enc zero (Dyn.arr xs) t h = absurd (omega (arith, h))
  dec-enc zero (Dyn.obj fs) t h = absurd (omega (arith, h))
  dec-enc (suc f) Dyn.null t h = refl
  dec-enc (suc f) (Dyn.bool true) t h = refl
  dec-enc (suc f) (Dyn.bool false) t h = refl
  dec-enc (suc f) (Dyn.num n) t h = refl
  dec-enc (suc f) (Dyn.str s) t h = rw (take_all s t, drop_all s t) refl
  dec-enc (suc f) (Dyn.arr xs) t h = ap as_arr (dec_items-enc_items f xs t (omega (arith, h)))
  dec-enc (suc f) (Dyn.obj fs) t h = ap as_obj (dec_fields-enc_fields f fs t (omega (arith, h)))

  dec_items-enc_items :
      (f : ℕ) (xs : Items) (t : Text) → items_depth xs ≤ f → dec_items f (enc_items xs t) ≡ (xs, t)
  dec_items-enc_items zero Items.nil t h = absurd (omega (arith, h))
  dec_items-enc_items zero (Items.cons x xs) t h = absurd (omega (arith, h))
  dec_items-enc_items (suc f) Items.nil t h = refl
  dec_items-enc_items (suc f) (Items.cons x xs) t h =
      rw
        (
          dec-enc f x (enc_items xs t) (omega (arith, h)),
          dec_items-enc_items f xs t (omega (arith, h)),
        )
        refl

  dec_fields-enc_fields :
      (f : ℕ) (fs : Fields) (t : Text)
      → fields_depth fs ≤ f
      → dec_fields f (enc_fields fs t) ≡ (fs, t)
  dec_fields-enc_fields zero Fields.end t h = absurd (omega (arith, h))
  dec_fields-enc_fields zero (Fields.field k v fs) t h = absurd (omega (arith, h))
  dec_fields-enc_fields (suc f) Fields.end t h = refl
  dec_fields-enc_fields (suc f) (Fields.field k v fs) t h =
      rw
        (
          take_all k (enc v (enc_fields fs t)),
          drop_all k (enc v (enc_fields fs t)),
          dec-enc f v (enc_fields fs t) (omega (arith, h)),
          dec_fields-enc_fields f fs t (omega (arith, h)),
        )
        refl

abbrev loads_tagged : Text → Dyn
loads_tagged [] = Dyn.null
loads_tagged (f ∷ t) = (dec f t).0

abbrev pub tagged : Encoding
tagged = record { dumps = λ d. depth d ∷ enc d []; loads = loads_tagged; max_variables = 999 }

pub tagged-IsLawful : IsLawful (json tagged)
tagged-IsLawful = record {
  loads-dumps = λ d. ap (λ p. p.0) (dec-enc (depth d) d [] (omega arith));
  dumps_nonempty = λ d. refl;
}
