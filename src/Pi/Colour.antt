-- ===== src/Pi/Colour.antt =====
-- RPi/colour.cpp, and the colour report of RPi/prints.cpp.
use cg2111a_b.Base.{
  ℕ, ◌+◌, ◌-◌, ◌%◌, ◌^◌, ◌&&◌, ◌||◌, List, [], ◌∷◌, String, if◌then◌else◌, ◌==◌, ltb,
}
use cg2111a_b.Packet.{Packet, param}
use cg2111a_b.Pi.{Pi, Event, Arg, World, word, float, emit, printf, printw}

-- What the report says of the three differences.
pub data Colour : Type 0 where
  red neither green : Colour

abbrev pub colour_text : Colour → String
colour_text red = "RED!\n"
colour_text neither = "NEITHER!\n"
colour_text green = "GREEN!\n"

module _ (w : World) where
  open w use {Float, of_word, divide, times, ltb_float}

  -- `times` rounds the product, which the code takes in `double`, to a `float`.
  unfoldable pub get_percent_diff : ℕ → ℕ → Float
  get_percent_diff a b =
      let diff = if ltb b a then a - b else b - a in
      let large = if ltb b a then a else b in
      times (divide (of_word diff) (of_word large)) (of_word 100)

  unfoldable pub judge : Float → Float → Float → Colour
  judge red_green red_blue blue_green =
      if ltb_float red_blue red_green && ltb_float red_blue blue_green
      then red
      else (if ltb_float red_green (of_word 4) then neither else green)

  -- `print_colourf` and `print_colourw`, by the way they print.
  print_colour :
      (String → List (Arg Float) → Event Float)
      → ℕ
      → ℕ
      → ℕ
      → Float
      → Float
      → Float
      → Pi Float
      → Pi Float
  unfolding judge
  print_colour say r g b red_green red_blue blue_green s =
      let s1 = emit (say "\n --------- ALEX COLOR SENSOR --------- \n\n" []) s in
      let s2 = emit (say "Red (R) frequency:\t%d\n" (word r ∷ [])) s1 in
      let s3 = emit (say "Green (G) frequency:\t%d\n" (word g ∷ [])) s2 in
      let s4 = emit (say "Blue (B) frequency:\t%d\n" (word b ∷ [])) s3 in
      let s5 = emit (say "Red Green diff:\t\t%0.2lf%\n" (float red_green ∷ [])) s4 in
      let s6 = emit (say "Red Blue diff:\t\t%0.2lf%\n" (float red_blue ∷ [])) s5 in
      let s7 = emit (say "Blue Green diff:\t%0.2lf%\n" (float blue_green ∷ [])) s6 in
      emit (say (colour_text (judge red_green red_blue blue_green)) []) s7

  unfoldable pub print_colourf : ℕ → ℕ → ℕ → Float → Float → Float → Pi Float → Pi Float
  unfolding print_colour
  print_colourf = print_colour printf

  unfoldable pub print_colourw : ℕ → ℕ → ℕ → Float → Float → Float → Pi Float → Pi Float
  unfolding print_colour
  print_colourw = print_colour printw

  unfoldable pub handle_color : Packet → Pi Float → Pi Float
  unfolding get_percent_diff print_colourf print_colourw
  handle_color p s =
      let r = param p 0 in
      let g = param p 1 in
      let b = param p 2 in
      let red_green = get_percent_diff r g in
      let red_blue = get_percent_diff r b in
      let blue_green = get_percent_diff b g in
      if s.keyboard_mode == 1 || s.keyboard_mode == 2
      then print_colourf r g b red_green red_blue blue_green s
      else print_colourw r g b red_green red_blue blue_green s

  -- `distance - SHROUDTOULTRA` is a word, and so is the threshold once it is compared with one.
  unfoldable pub handle_distance : Packet → Pi Float → Pi Float
  handle_distance p s =
      let distance = param p 0 in
      let s1 = emit (printf "Ultrasonic Distance:\t\t%d cm\n" (word distance ∷ [])) s in
      let net = (distance + 2 ^ 32 - 7) % 2 ^ 32 in
      let s2 = emit (printf "Actual distance from shroud is \t\t%d cm\n" (word net ∷ [])) s1 in
      if ltb distance 25 then emit (printf "WALL NEARBY! SLOW DOWN!\n" []) s2 else s2
