-- ===== src/Primitives.antt =====
-- client/src/components/ui/badge.tsx and status-dot.tsx, and client/src/components/charts: the
-- choices that these make. The merging of class names belongs to libraries.
use wave_cast.Common.{ℕ, String, Bool, List, [], ◌∷◌, Option, none, some, if◌then◌else◌}

-- badge.tsx. A tone is a variant; one that is given goes before the variant.
pub data Variant : Type 0 where
  default live success warning neutral brand danger secondary destructive outline ghost link :
      Variant

unfoldable resolved_variant : Option Variant → Option Variant → Variant
resolved_variant (some tone) variant = tone
resolved_variant none none = default
resolved_variant none (some variant) = variant

unfoldable variant_class : Variant → String
variant_class default = "bg-primary text-primary-foreground [a]:hover:bg-primary/80"
variant_class live =
    "bg-destructive text-white shadow-sm shadow-destructive/20 [a]:hover:bg-destructive/90"
variant_class success = "bg-chart-3/10 text-chart-3"
variant_class warning = "bg-chart-5/10 text-chart-5"
variant_class neutral = "bg-muted text-muted-foreground"
variant_class brand = "bg-primary/10 text-primary"
variant_class danger = "bg-destructive/10 text-destructive"
variant_class secondary = "bg-secondary text-secondary-foreground [a]:hover:bg-secondary/80"
variant_class destructive =
    "bg-destructive/10 text-destructive focus-visible:ring-destructive/20 dark:bg-destructive/20 dark:focus-visible:ring-destructive/40 [a]:hover:bg-destructive/20"
variant_class outline =
    "border-border text-foreground [a]:hover:bg-muted [a]:hover:text-muted-foreground"
variant_class ghost = "hover:bg-muted hover:text-muted-foreground dark:hover:bg-muted/50"
variant_class link = "text-primary underline-offset-4 hover:underline"

-- status-dot.tsx.
pub data DotTone : Type 0 where
  green red yellow purple : DotTone

unfoldable dot_color : Option DotTone → String
dot_color none = "bg-chart-3"
dot_color (some green) = "bg-chart-3"
dot_color (some red) = "bg-destructive"
dot_color (some yellow) = "bg-[var(--chart-2)]"
dot_color (some purple) = "bg-primary"

-- mini-line-chart.tsx. A field that may be missing is an option.
pub record Point : Type 0 where
  pub label : String
  pub value : Option ℕ
  pub listeners : Option ℕ

-- The field that the line shows is chosen by the first point; without points the test throws.
unfoldable chart_key : List Point → Option String
chart_key [] = none
chart_key (point ∷ points) = some (elim point.value [ none ↦ "listeners" | some value ↦ "value" ])

-- The kind of chart and the field it shows.
unfoldable mini_line_chart : List Point → Bool → Option (String × String)
unfolding chart_key
mini_line_chart points area = elim (chart_key points) [
  | none ↦ none
  | some key ↦ some (if area then "AreaChart" else "LineChart", key)
]
