-- ===== src/Digest.antt =====
-- The payloads that hedge_desk/ hashes. A payload is the list of its leaves in the order in which
-- the code writes them; a list inside it stands behind its length. Writing the payload as text
-- (isoformat, str, "|".join or json.dumps with sorted keys) and sha256(...).hexdigest() are code of
-- the standard library, and together they are the parameter `Digest` of the functions that hash. A
-- `stamp` is the isoformat text of a time, or the empty text where there is none.
use hedge_desk.Prelude.{ℕ, ◌≡◌, ◌≢◌, Bool, String, Option, List, [], ◌∷◌, map, str_append}
use hedge_desk.Decimal.{ℤ, Number}
use hedge_desk.Time.{Moment, DateTime}

pub data Field : Type 0 where
  text : String → Field
  texts : List String → Field
  number : Number → Field
  moment : DateTime → Field
  moments : List DateTime → Field
  stamp : Option Moment → Field
  day : ℕ → Field
  count : ℕ → Field
  integer : ℤ → Field
  flag : Bool → Field
  absent : Field

abbrev pub Digest : Type 0
Digest = List Field → String

-- Two payloads with one digest.
pub record Collision (digest : Digest) : Type 0 where
  pub left : List Field
  pub right : List Field
  pub differ : left ≢ right
  pub collide : digest left ≡ digest right

-- ','.join(xs) or '|'.join(xs)
unfoldable pub join : String → List String → String
join separator [] = ""
join separator (s ∷ []) = s
join separator (s ∷ t ∷ rest) = str_append s (str_append separator (join separator (t ∷ rest)))

-- A leaf inside a joined text; a time, a number and the like are as `render` writes them.
unfoldable pub written : (Field → String) → Field → String
unfolding join
written render (text s) = s
written render (texts ss) = join "," ss
written render (moments ts) = join "," (map (λ t. render (moment t)) ts)
written render (number n) = render (number n)
written render (moment t) = render (moment t)
written render (stamp t) = render (stamp t)
written render (day n) = render (day n)
written render (count n) = render (count n)
written render (integer n) = render (integer n)
written render (flag b) = render (flag b)
written render absent = render absent

-- '|'.join(leaves): the text does not say where a leaf ends, if a leaf holds a '|'.
unfoldable pub joined : (Field → String) → List Field → String
unfolding join written
joined render leaves = join "|" (map (written render) leaves)

-- Two texts with one hash.
pub record TextCollision (sha : String → String) : Type 0 where
  pub left : String
  pub right : String
  pub differ : left ≢ right
  pub collide : sha left ≡ sha right
