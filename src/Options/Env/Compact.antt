-- ===== src/Options/Env/Compact.antt =====
-- The in-place loop that removes the empty entries of an environment.
use containerd_attributes_cl.Base.{
  ℕ, zero, suc, ◌≤◌, Text, List, [], ◌∷◌, ◌++◌, append_assoc, append-nil, none, some, ◌≡◌, refl,
  sym, ◌∙◌, ap, arith, is_empty, length, get_elem?, All, ◌≢◌, if◌then◌else◌,
}
use containerd_attributes_cl.Options.Env.{compact, remove_at}

-- The entries that are not empty, in order.
unfoldable pub nonempty : List Text → List Text
nonempty [] = []
nonempty (e ∷ es) = let rest = nonempty es in if is_empty e then rest else e ∷ rest

get_elem?-append_length :
    (pre : List Text) (e : Text) (es : List Text) → get_elem? (pre ++ e ∷ es) (length pre) ≡ some e
get_elem?-append_length [] e es = refl
get_elem?-append_length (p ∷ pre) e es = get_elem?-append_length pre e es

get_elem?_past : (pre : List Text) → get_elem? pre (length pre) ≡ none
get_elem?_past [] = refl
get_elem?_past (p ∷ pre) = get_elem?_past pre

remove_at-append :
    (pre : List Text) (e : Text) (es : List Text)
    → remove_at (pre ++ e ∷ es) (length pre) ≡ pre ++ es
remove_at-append [] e es = refl
remove_at-append (p ∷ pre) e es = ap (◌∷◌ p) (remove_at-append pre e es)

length-concat : (pre : List Text) (e : Text) → length (pre ++ e ∷ []) ≡ suc (length pre)
length-concat [] e = refl
length-concat (p ∷ pre) e = ap suc (length-concat pre e)

-- With fuel for each entry that is left, the loop keeps what it has passed and filters the rest.
pub compact-eq-nonempty :
    (fuel : ℕ) (pre es : List Text)
    → length es ≤ fuel
    → compact fuel (pre ++ es) (length pre) ≡ pre ++ nonempty es
unfolding compact nonempty
compact-eq-nonempty zero pre [] h = refl
compact-eq-nonempty zero pre (e ∷ es) h = absurd (omega arith)
compact-eq-nonempty (suc fuel) pre [] h =
    rw (append-nil pre, compact, get_elem?_past pre) (append-nil pre)
compact-eq-nonempty (suc fuel) pre ([] ∷ es) h =
    rw (compact, get_elem?-append_length pre [] es, remove_at-append pre [] es)
      (compact-eq-nonempty fuel pre es (omega arith))
compact-eq-nonempty (suc fuel) pre ((c ∷ e) ∷ es) h =
    rw (compact, get_elem?-append_length pre (c ∷ e) es)
      (ap (λ r. compact fuel r (suc (length pre))) (sym (append_assoc pre ((c ∷ e) ∷ []) es))
        ∙ ap (compact fuel _) (sym (length-concat pre (c ∷ e)))
        ∙ compact-eq-nonempty fuel (pre ++ (c ∷ e) ∷ []) es (omega arith)
        ∙ append_assoc pre ((c ∷ e) ∷ []) (nonempty es))

pub nonempty-All : (es : List Text) → All (λ e. e ≢ []) (nonempty es)
unfolding nonempty
nonempty-All [] = tt
nonempty-All ([] ∷ es) = nonempty-All es
nonempty-All ((c ∷ e) ∷ es) = (cc, nonempty-All es)

-- As the program calls it: the fuel is the number of entries, and that is enough.
pub compact_lem : (es : List Text) → compact (length es) es zero ≡ nonempty es
compact_lem es = compact-eq-nonempty (length es) [] es (omega arith)
