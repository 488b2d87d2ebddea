-- ===== src/Base/Proc/Along.antt =====
-- Calls on a state that has more in it than another, and do the same to the other.
use mathlib.Core.Path.{◌≡◌, refl, ap, ◌∙◌}
use mathlib.Core.Bool.{Bool, true, false}
use containerd_attributes_cl.Base.Equality.{if◌then◌else◌}
use containerd_attributes_cl.Base.Errors.{ok, err, Run, returns, panics, spins}
use containerd_attributes_cl.Base.Exec.{Exec}
use containerd_attributes_cl.Base.Proc.{Proc, ◌>>=◌, resume, lift, defer, at_end}

module _ {T S : Type 0} (f : T → S) where
  abbrev pub forget : {A : Type 0} → A × T → A × S
  forget x = (x.0, f x.1)

  pub record Along {A : Type 0} (m : T → A × T) (n : S → A × S) : Type 0 where
    pub same : (t : T) → forget (m t) ≡ n (f t)

  forget-resume :
      {A B : Type 0} (g : A → Proc T B) (h : A → Proc S B) (r : Run A) (t : T)
      → ((a : A) → Along (g a) (h a))
      → forget (resume r g t) ≡ resume r h (f t)
  forget-resume g h (returns (ok a)) t q = (q a).same t
  forget-resume g h (returns (err e)) t q = refl
  forget-resume g h panics t q = refl
  forget-resume g h spins t q = refl

  pub bind-Along :
      {A B : Type 0} (m : Proc T A) (n : Proc S A) (g : A → Proc T B) (h : A → Proc S B)
      → Along m n
      → ((a : A) → Along (g a) (h a))
      → Along (m >>= g) (n >>= h)
  bind-Along m n g h p q = record {
    same = λ t. forget-resume g h (m t).0 (m t).1 q ∙ ap (λ x. resume x.0 h x.1) (p.same t);
  }

  pub lift-Along : {A : Type 0} (m : Exec T A) (n : Exec S A) → Along m n → Along (lift m) (lift n)
  lift-Along m n p = record { same = λ t. ap (λ x. (returns x.0, x.1)) (p.same t) }

  forget-at_end :
      {A : Type 0} (c : T → T) (d : S → S) (r : Run A) (t : T)
      → ((u : T) → f (c u) ≡ d (f u))
      → forget (at_end r c t) ≡ at_end r d (f t)
  forget-at_end c d (returns a) t p = ap (λ s. (returns a, s)) (p t)
  forget-at_end c d panics t p = ap (λ s. (panics, s)) (p t)
  forget-at_end c d spins t p = refl

  pub defer-Along :
      {A : Type 0} (c : T → T) (d : S → S) (m : Proc T A) (n : Proc S A)
      → ((u : T) → f (c u) ≡ d (f u))
      → Along m n
      → Along (defer c m) (defer d n)
  defer-Along c d m n p q = record {
    same = λ t. forget-at_end c d (m t).0 (m t).1 p ∙ ap (λ x. at_end x.0 d x.1) (q.same t);
  }

  pub if-Along :
      {A : Type 0} (b : Bool) (m m' : Proc T A) (n n' : Proc S A)
      → Along m n
      → Along m' n'
      → Along (if b then m else m') (if b then n else n')
  if-Along true m m' n n' p q = p
  if-Along false m m' n n' p q = q

  forget-if_done :
      {A : Type 0} (b : Bool) (x x' : A × T) (y y' : A × S)
      → forget x ≡ y
      → forget x' ≡ y'
      → forget (if b then x else x') ≡ (if b then y else y')
  forget-if_done true x x' y y' p q = p
  forget-if_done false x x' y y' p q = q

  -- A test of the state that both have.
  pub if_done-Along :
      {A : Type 0} (b : S → Bool) (m m' : T → A × T) (n n' : S → A × S)
      → Along m n
      → Along m' n'
      → Along (λ t. if b (f t) then m t else m' t) (λ s. if b s then n s else n' s)
  if_done-Along b m m' n n' p q = record {
    same = λ t. forget-if_done (b (f t)) _ _ _ _ (p.same t) (q.same t);
  }
