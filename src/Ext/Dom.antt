-- ===== src/Ext/Dom.antt =====
-- The browser's document interface as ext/lib/snapshot.ts uses it, and that file's walk over the
-- reachable roots: `collectRoots`, `findEl`, `deepQueryAll`.
pub mod Roots
use otclick_hh.Common.{
  Bool, List, Option, String, Text, [], codes, concat_map, if◌then◌else◌, is_word, none, some, suc,
  zero, ℕ, ◌++◌, ◌||◌, ◌∷◌,
}

-- A `World` is the page at one moment. Elements and roots (documents and shadow roots) keep their
-- identity from one world to the next.
pub record Dom : Type 1 where
  pub World : Type 0
  pub El : Type 0
  pub Root : Type 0
  -- `a === b` on elements
  pub same_el : El → El → Bool
  -- `root.querySelectorAll(selector)`, in document order
  pub query_all : World → Root → Text → List El
  -- `el.querySelectorAll(selector)`
  pub within : World → El → Text → List El
  pub closest : World → El → Text → Option El
  pub contains : World → El → El → Bool
  -- the chain of `parentElement`, nearest first
  pub ancestors : World → El → List El
  -- the chain of `previousElementSibling`, nearest first
  pub prev_siblings : World → El → List El
  pub root_of : World → El → Root
  pub owner_document : El → Root
  -- `root.host`; `none` for a document
  pub host_of : Root → Option El
  -- `el.shadowRoot`; `none` for a closed one
  pub shadow_root : World → El → Option Root
  -- `contentDocument` of a frame; `none` where it is null or the access throws
  pub content_document : World → El → Option Root
  -- in upper case in an HTML document
  pub tag_name : El → Text
  pub attr : World → El → String → Option Text
  pub text_content : World → El → Text
  -- `getComputedStyle(el)`
  pub display : World → El → String
  pub visibility : World → El → String
  pub has_offset_parent : World → El → Bool
  -- `instanceof HTMLInputElement`
  pub is_input : El → Bool
  -- the properties of form controls
  pub input_value : World → El → Text
  pub is_checked : World → El → Bool
  pub required_prop : World → El → Bool
  -- the `value` and the `textContent` of each option of a `<select>`
  pub select_options : World → El → List (Text × Text)
  -- `CSS.escape`, and `toLowerCase` of strings
  pub escape : Text → Text
  pub to_lower : Text → Text

module _ (d : Dom) (w : d.World) where
  open d use {El, Root, query_all, shadow_root, content_document, tag_name}

  abbrev pub opt_list : Option Root → List Root
  opt_list none = []
  opt_list (some r) = r ∷ []

  abbrev pub is_frame : El → Bool
  is_frame el = is_word (tag_name el) "IFRAME" || is_word (tag_name el) "FRAME"

  -- The roots directly below an element: its open shadow root, then its child document.
  unfoldable pub below : El → List Root
  below el =
      opt_list (shadow_root w el) ++ (if is_frame el then opt_list (content_document w el) else [])

  -- The roots directly below a root, in document order.
  unfoldable pub roots_below : List El → List Root
  unfolding below
  roots_below [] = []
  roots_below (el ∷ els) = below el ++ roots_below els

  -- `collectRoots`, on fuel for the depth of nesting
  unfoldable pub collect_roots : ℕ → Root → List Root
  unfolding roots_below
  collect_roots zero r = r ∷ []
  collect_roots (suc n) r =
      r ∷ concat_map (collect_roots n) (roots_below (query_all w r (codes "*")))

  -- `findEl`, over the roots that the walk has collected
  unfoldable pub find_el : List Root → Text → Option El
  find_el [] selector = none
  find_el (r ∷ rs) selector = elim (query_all w r selector) [
    | [] ↦ find_el rs selector
    | el ∷ _ ↦ some el
  ]

  -- `deepQueryAll`
  unfoldable pub deep_query_all : List Root → Text → List El
  deep_query_all roots selector = concat_map (λ r. query_all w r selector) roots
