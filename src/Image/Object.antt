-- ===== src/Image/Object.antt =====
-- aritfact/image.go: the image object, its constructors and the methods that pass a call on.
use containerd_attributes_cl.Base.{Text, ℕ, List, Option, none, some, Result, Run, returns, panics}
use containerd_attributes_cl.Content.{Descriptor}

-- images.Image
pub record Metadata : Type 0 where
  pub name : Text
  pub target : Descriptor
  pub labels : List (Text × Text)

-- containerd.Image, as far as it is called; `Matcher` is platforms.MatchComparer.
pub record Underlying (Matcher : Type 0) : Type 0 where
  pub platform : Matcher
  pub size : Result ℕ
  pub usage : Result ℕ
  pub config : Result Descriptor

-- `image`, whose containerd image may be nil
pub record Object (Matcher : Type 0) : Type 0 where
  pub metadata : Metadata
  pub image : Option (Underlying Matcher)
  pub platform : Matcher

module _ {Matcher : Type 0} where
  -- `NewImage`
  abbrev pub new_image : Metadata → Underlying Matcher → Object Matcher
  new_image i c = record { metadata = i; image = some c; platform = c.platform }

  -- `NewImageWithPlatform`
  abbrev pub new_image_with_platform : Metadata → Matcher → Object Matcher
  new_image_with_platform i platform = record { metadata = i; image = none; platform = platform }

  -- A method of the containerd image; on nil it panics.
  abbrev pass_on :
      {A : Type 0} → Option (Underlying Matcher) → (Underlying Matcher → Result A) → Run A
  pass_on (some c) method = returns (method c)
  pass_on none method = panics

  pub name : Object Matcher → Text
  name o = o.metadata.name

  pub target : Object Matcher → Descriptor
  target o = o.metadata.target

  pub labels : Object Matcher → List (Text × Text)
  labels o = o.metadata.labels

  unfoldable pub size : Object Matcher → Run ℕ
  size o = pass_on o.image (λ c. c.size)

  unfoldable pub usage : Object Matcher → Run ℕ
  usage o = pass_on o.image (λ c. c.usage)

  unfoldable pub config : Object Matcher → Run Descriptor
  config o = pass_on o.image (λ c. c.config)
