-- ===== src/Base/Xml.antt =====
-- Elements of XML as `xml.etree.ElementTree` has them: a tag with its namespace, attributes, the
-- text before the first child, and the children.
use shiden_api.Base.Tests.{if◌then◌else◌}
use shiden_api.Base.Text.{Text, text_eq}
use mathlib.Core.List.{List, [], ◌∷◌, ◌++◌}
use mathlib.Core.Option.{Option, none, some}

mutual
  pub data Element : Type 0 where
    element : Text → List (Text × Text) → Option Text → Elements → Element

  pub data Elements : Type 0 where
    no_elements : Elements
    child : Element → Elements → Elements

abbrev pub tag_of : Element → Text
tag_of (element tag attributes content children) = tag

abbrev pub text_of : Element → Option Text
text_of (element tag attributes content children) = content

abbrev pub list_of : Elements → List Element
list_of no_elements = []
list_of (child e es) = e ∷ list_of es

-- `for x in element`
abbrev pub children_of : Element → List Element
children_of (element tag attributes content children) = list_of children

abbrev pub find_attribute : Text → List (Text × Text) → Option Text
find_attribute key [] = none
find_attribute key ((k, v) ∷ attributes) =
    if text_eq k key then some v else find_attribute key attributes

-- `element.get(key)`
abbrev pub attribute : Text → Element → Option Text
attribute key (element tag attributes content children) = find_attribute key attributes

-- The same, an empty text counting as none.
abbrev pub nonempty : Option Text → Option Text
nonempty none = none
nonempty (some []) = none
nonempty (some (c ∷ s)) = some (c ∷ s)

unfoldable mutual
  -- The element and all below it, in the order of the document.
  pub descendants : Element → List Element
  descendants (element tag attributes content children) =
      element tag attributes content children ∷ descendants_all children

  pub descendants_all : Elements → List Element
  descendants_all no_elements = []
  descendants_all (child e es) = descendants e ++ descendants_all es

abbrev pub with_tag : Text → List Element → List Element
with_tag tag [] = []
with_tag tag (e ∷ es) = if text_eq (tag_of e) tag then e ∷ with_tag tag es else with_tag tag es

-- `root.iter(tag)`
unfoldable pub iter : Text → Element → List Element
unfolding descendants
iter tag root = with_tag tag (descendants root)
