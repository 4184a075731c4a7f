-- ===== src/Store/Tags/Styles.antt =====
-- tagsy-core/src/tag_style.rs: the visual style of a tag, and style_from_row of
-- tagsyd/src/store/tags.rs, which reads it back from its columns.
use tagsy.Prelude.{
  Bool, String, false, if◌then◌else◌, not, one, refl, true, ℕ, ◌==◌, ◌≡◌, string_eq, nat_eq,
}
use tagsy.Store.{StyleColumns, entry_key_eq}

pub data TagShape : Type 0 where
  rounded stadium square cut_corner : TagShape

-- `BorderStyle::None` is `no_border`.
pub data BorderStyle : Type 0 where
  no_border solid dashed : BorderStyle

-- `TagStyle`; `border_width` is an `f64`, kept as its bit pattern.
pub record TagStyle : Type 0 where
  pub dot_color : String
  pub background : String
  pub gradient : String
  pub foreground : String
  pub border : String
  pub border_width : ℕ
  pub border_style : BorderStyle
  pub shape : TagShape
  pub shadow : Bool
  pub shadow_color : String

unfoldable pub shape_as_str : TagShape → String
shape_as_str rounded = "rounded"
shape_as_str stadium = "stadium"
shape_as_str square = "square"
shape_as_str cut_corner = "cut_corner"

unfoldable pub shape_from_str_or_default : String → TagShape
shape_from_str_or_default value =
    if value == "rounded"
    then rounded
    else if value == "stadium"
    then stadium
    else if value == "square"
    then square
    else if value == "cut_corner"
    then cut_corner
    else stadium

unfoldable pub border_as_str : BorderStyle → String
border_as_str no_border = "none"
border_as_str solid = "solid"
border_as_str dashed = "dashed"

unfoldable pub border_from_str_or_default : String → BorderStyle
border_from_str_or_default value =
    if value == "none"
    then no_border
    else if value == "solid"
    then solid
    else if value == "dashed"
    then dashed
    else solid

-- What `add_tag` and `update_tag_style` bind to the ten columns.
unfoldable pub style_columns : TagStyle → StyleColumns
unfolding shape_as_str border_as_str
style_columns style = record {
  dot_color = style.dot_color;
  background = style.background;
  gradient = style.gradient;
  foreground = style.foreground;
  border = style.border;
  border_width = style.border_width;
  border_style = border_as_str style.border_style;
  shape = shape_as_str style.shape;
  shadow = one style.shadow;
  shadow_color = style.shadow_color;
}

unfoldable pub style_from_row : StyleColumns → TagStyle
unfolding shape_from_str_or_default border_from_str_or_default
style_from_row columns = record {
  dot_color = columns.dot_color;
  background = columns.background;
  gradient = columns.gradient;
  foreground = columns.foreground;
  border = columns.border;
  border_width = columns.border_width;
  border_style = border_from_str_or_default columns.border_style;
  shape = shape_from_str_or_default columns.shape;
  shadow = not (columns.shadow == 0);
  shadow_color = columns.shadow_color;
}

shape_roundtrip : (s : TagShape) → shape_from_str_or_default (shape_as_str s) ≡ s
unfolding shape_from_str_or_default shape_as_str
shape_roundtrip rounded = refl
shape_roundtrip stadium = refl
shape_roundtrip square = refl
shape_roundtrip cut_corner = refl

border_roundtrip : (s : BorderStyle) → border_from_str_or_default (border_as_str s) ≡ s
unfolding border_from_str_or_default border_as_str
border_roundtrip no_border = refl
border_roundtrip solid = refl
border_roundtrip dashed = refl

shadow_roundtrip : (b : Bool) → not (one b == 0) ≡ b
shadow_roundtrip true = refl
shadow_roundtrip false = refl

pub style_from_row-style_columns : (style : TagStyle) → style_from_row (style_columns style) ≡ style
unfolding style_from_row style_columns
style_from_row-style_columns style =
    rw
      (
        shape_roundtrip style.shape,
        border_roundtrip style.border_style,
        shadow_roundtrip style.shadow,
      )
      refl
