-- ===== src/Config/Images.antt =====
-- The list of images that `load_image` of src/config.c keeps.
use dewlock.Base.{
  ℕ, ◌≡◌, refl, ap, subst, ◌∙◌, true, false, Option, none, some, List, [], ◌∷◌, arith, All, if_true,
  if_false, if_both, Bool-cases, inl, inr,
}
use dewlock.Strings.{lenient_strcmp, is_zero}
use dewlock.Strings.Equality.{same_name, lenient_strcmp-zero, same_text-eq}
use dewlock.State.{Image}
use dewlock.Config.{Cfg}
use dewlock.Config.Load.{
  Outside, Loading, endless, loads, ImageName, image_name, remove_image, insert_loaded,
  insert_expanded, insert_escaped, load_named, load_path, load_image,
}
use dewlock.Config.Escaping.{spaced, escape_loop-ends}

-- The image is of another output.
abbrev Other : Option (List ℕ) → Image → Type 0
Other name i = same_name i.output_name name ≡ false

-- No two images are of the same output, and at most one is of none.
abbrev pub AreDistinct : List Image → Type 0
AreDistinct [] = Unit
AreDistinct (i ∷ images) = All (Other i.output_name) images × AreDistinct images

same_name-eq : (a b : Option (List ℕ)) → same_name a b ≡ true → a ≡ b
same_name-eq none none h = refl
same_name-eq none (some b) h = ground arith
same_name-eq (some a) none h = ground arith
same_name-eq (some a) (some b) h = ap some (same_text-eq a b h)

remove_image-All :
    (P : Image → Type 0) (name : Option (List ℕ)) (images : List Image)
    → All P images
    → All P (remove_image name images)
unfolding remove_image
remove_image-All P name [] h = tt
remove_image-All P name (i ∷ images) h =
    if_both (All P) (is_zero (lenient_strcmp i.output_name name)) _ _ h.1
      (h.0, remove_image-All P name images h.1)

remove_image-AreDistinct :
    (name : Option (List ℕ)) (images : List Image)
    → AreDistinct images
    → All (Other name) (remove_image name images) × AreDistinct (remove_image name images)
unfolding remove_image
remove_image-AreDistinct name [] h = (tt, tt)
remove_image-AreDistinct name (i ∷ images) h =
    let later = remove_image-AreDistinct name images h.1 in
    elim (Bool-cases (same_name i.output_name name)) [
      | inl same ↦
          if_true Good (is_zero (lenient_strcmp i.output_name name)) _ _ (test ∙ same)
            (subst (λ n. All (Other n) images) (same_name-eq i.output_name name same) h.0, h.1)
      | inr other ↦
          if_false Good (is_zero (lenient_strcmp i.output_name name)) _ _ (test ∙ other)
            ((other, later.0), (remove_image-All (Other i.output_name) name images h.0, later.1))
    ]
  where
    Good : List Image → Type 0
    Good xs = All (Other name) xs × AreDistinct xs

    test : is_zero (lenient_strcmp i.output_name name) ≡ same_name i.output_name name
    test = lenient_strcmp-zero i.output_name name

-- The loop ends, and the images are distinct.
abbrev pub EndsDistinct : Loading → Type 0
EndsDistinct endless = ⊥
EndsDistinct (loads cfg images) = AreDistinct images

module _ (out : Outside) (cfg : Cfg) (name : Option (List ℕ)) (images : List Image)
    (d : All (Other name) images × AreDistinct images) where
  insert_loaded-EndsDistinct :
      (path : List ℕ) (loaded : Option ℕ) → EndsDistinct (insert_loaded cfg name path loaded images)
  unfolding insert_loaded
  insert_loaded-EndsDistinct path none = d.1
  insert_loaded-EndsDistinct path (some surface) = d

  insert_expanded-EndsDistinct :
      (path : List ℕ) (words : Option (List (List ℕ)))
      → EndsDistinct (insert_expanded out cfg name path words images)
  unfolding insert_expanded
  insert_expanded-EndsDistinct path none = insert_loaded-EndsDistinct path _
  insert_expanded-EndsDistinct path (some words) = insert_loaded-EndsDistinct _ _

load_named-EndsDistinct :
    (out : Outside) (cfg : Cfg) (i : ImageName) (images : List Image)
    → AreDistinct images
    → EndsDistinct (load_named out cfg i images)
unfolding load_named insert_escaped
load_named-EndsDistinct out cfg i images d = rw (escape_loop-ends i.path) (
    insert_expanded-EndsDistinct out _ i.output_name (remove_image i.output_name images)
      (remove_image-AreDistinct i.output_name images d) (spaced i.path)
      (out.wordexp (spaced i.path)))

-- Whatever the shell and the image files are, the loop in `load_image` ends, and the call
-- keeps at most one image for each output and at most one default.
pub load_image-EndsDistinct :
    (out : Outside) (cfg : Cfg) (images : List Image)
    → AreDistinct images
    → EndsDistinct (load_image out cfg images)
unfolding load_image
load_image-EndsDistinct out cfg images d = go cfg.path
  where
    go : (path : Option (List ℕ)) → EndsDistinct (load_path out cfg path images)
    go none = d
    go (some raw) = load_named-EndsDistinct out cfg (image_name raw) images d
