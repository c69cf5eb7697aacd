-- ===== src/Ui/PageTests.antt =====
-- Some pages, as they are opened and left.
use fw.Base.{ℕ, ◌≡◌, refl, true, false, not, arith, List, [], ◌∷◌}
use fw.Ui.Stack.{Page, Stack, outside, and_then, ui_call}
use fw.Ui.Stack.Slots.{OpenPage, slot_of, IsStackOf}
use fw.Ui.Stack.Enters.{Op, switch, call, back, empty, Reaches}
use fw.Ui.Stack.Runs.{runs, no_pages, boot, boot-runs-Reaches, ui_call-full}
use fw.Ui.Power.{Pages, toggle_on_off}
use fw.Ui.Power.Button.{pages_after, toggle_on_off-Reaches, button_events, button_events-presses}

abbrev page : ℕ → ℕ → Page
page name size = record {
  name = name;
  ctx_size = size;
  has_open = true;
  has_close = true;
  has_resume = true;
}

abbrev ops : List Op
ops =
    switch (page 1 40) 0
    ∷ call (page 2 16) 7
    ∷ call (page 3 0) 0
    ∷ back
    ∷ switch (page 4 8) 0
    ∷ call (page 5 100) 1
    ∷ empty
    ∷ switch (page 0 0) 0
    ∷ call (page 6 12) 2
    ∷ []

boot-runs-Reaches_example :
    Reaches (and_then (boot (page 0 0) no_pages) (runs ops)) (page 6 12 ∷ page 0 0 ∷ [])
boot-runs-Reaches_example = boot-runs-Reaches (page 0 0) ops (page 6 12 ∷ page 0 0 ∷ []) refl

abbrev off_entry : OpenPage
off_entry = record { page = page 0 0; place = 0 }

-- A stack on which the same page is opened again and again.
abbrev piled : ℕ → Stack
piled sp = record { slots = λ i. slot_of off_entry; sp = sp; next = 0; live = []; calls = [] }

abbrev ten : List OpenPage
ten =
    off_entry ∷ off_entry ∷ off_entry ∷ off_entry ∷ off_entry ∷ off_entry ∷ off_entry ∷ off_entry
    ∷ off_entry ∷ off_entry ∷ []

piled-IsStackOf : IsStackOf ten (piled 9)
piled-IsStackOf = record {
  bound = omega arith;
  holds = (refl, (refl, (refl, (refl, (refl, (refl, (refl, (refl, (refl, (refl, refl))))))))));
  live = refl;
  apart = tt;
}

ui_call-full_example : ui_call (page 1 40) 0 (piled 9) ≡ outside
ui_call-full_example = ui_call-full (page 1 40) 0 ten (piled 9) piled-IsStackOf refl

abbrev first_pages : Pages
first_pages = record {
  ui_off = page 0 0;
  ui_cooldown = page 1 40;
  ui_new = page 2 16;
  ui_pin = page 3 8;
  ui_entry = page 4 100;
}

-- The device is off, and is turned on, where the PIN is asked for.
off_entry-IsStackOf : IsStackOf (off_entry ∷ []) (piled 0)
off_entry-IsStackOf = record { bound = omega arith; holds = (refl, refl); live = refl; apart = tt }

toggle_on_off-Reaches_example :
    ((toggle_on_off first_pages false false false (piled 0)).0 ≡ not false)
    × Reaches
        (toggle_on_off first_pages false false false (piled 0)).1
        (pages_after first_pages false false false)
toggle_on_off-Reaches_example =
    toggle_on_off-Reaches first_pages false false false off_entry [] (piled 0) off_entry-IsStackOf
      (λ e. refl)

button_events-presses_example :
    button_events 0 ((100, true) ∷ (110, false) ∷ (500, true) ∷ []) ≡ true ∷ false ∷ false ∷ []
button_events-presses_example =
    button_events-presses 100 110 500 (omega arith) (omega arith) (omega arith) (omega arith)
