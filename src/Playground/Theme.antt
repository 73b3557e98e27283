-- ===== src/Playground/Theme.antt =====
-- The editor's theme in App.tsx: it follows the colour scheme of the page.
use flagd.Prelude.{
  Bool, false, not, ◌&&◌, Option, none, some, String, ◌==◌, ◌≡◌, ◌≢◌, ◌↔◌, arith, eq_iff,
  if◌then◌else◌, refl, ℕ, eqb, sym, ap, ◌∙◌, Bool-cases, inl, inr,
}

-- `getPalette`, from the attribute of the page's body.
unfoldable pub get_palette : Option String → String
get_palette none = "custom"
get_palette (some scheme) =
    if not (scheme == "") && not (scheme == "default") then "custom-dark" else "custom"

-- The page as far as the effect sees it: the body's attribute, the element of the palette switch (a
-- missing one is `none`), and the editor's theme.
pub record Page : Type 0 where
  pub scheme : Option String
  pub palette_switch : Option ℕ
  pub editor_theme : String

abbrev is_switch : Option ℕ → ℕ → Bool
is_switch none ref = false
is_switch (some element) ref = eqb ref element

-- The subscription's callback, for a component that the page reports.
unfoldable pub on_component : ℕ → Page → Page
unfolding get_palette
on_component ref p =
    if is_switch p.palette_switch ref then record p { editor_theme = get_palette p.scheme } else p

custom-ne-custom-dark : ◌≢◌ {A = String} "custom" "custom-dark"
custom-ne-custom-dark = ground (arith, eq_iff "custom" "custom-dark")

get_palette_iff :
    (attribute : Option String)
    → (get_palette attribute ≡ "custom-dark")
      ↔ ((scheme : String) × (attribute ≡ some scheme) × (scheme ≢ "") × (scheme ≢ "default"))
unfolding get_palette
get_palette_iff none =
    (λ h. absurd (custom-ne-custom-dark h), λ (scheme, e, n, d). absurd (ground (arith, e)))
get_palette_iff (some scheme) = (
  λ h. elim (Bool-cases (not (scheme == "") && not (scheme == "default"))) [
    | inl t ↦ (
      scheme,
      refl,
      ground (arith, t, eq_iff scheme ""),
      ground (arith, t, eq_iff scheme "default"),
    )
    | inr t ↦
        absurd (custom-ne-custom-dark (sym (ap (λ b. if b then "custom-dark" else "custom") t) ∙ h))
  ],
  λ (given, e, n, d). ground (arith, e, n, d, eq_iff scheme "", eq_iff scheme "default"),
)

on_component-get_palette :
    (ref : ℕ) (p : Page)
    → p.palette_switch ≡ some ref
    → (on_component ref p).editor_theme ≡ get_palette p.scheme
unfolding on_component
on_component-get_palette ref p h = ground (arith, h)

-- After the palette switch is reported, the theme is dark just if the page has a colour scheme other
-- than "default".
pub on_component-switch :
    (ref : ℕ) (p : Page)
    → p.palette_switch ≡ some ref
    → ((on_component ref p).editor_theme ≡ "custom-dark")
      ↔ ((scheme : String) × (p.scheme ≡ some scheme) × (scheme ≢ "") × (scheme ≢ "default"))
on_component-switch ref p h = rw (on_component-get_palette ref p h) (get_palette_iff p.scheme)
