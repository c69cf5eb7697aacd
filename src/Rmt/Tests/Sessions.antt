-- ===== src/Rmt/Tests/Sessions.antt =====
-- Sessions of remote access with a database of two entries.
use fw.Base.{ℕ, ◌+◌, ◌≡◌, refl, true, false, none, some, [], ◌∷◌, arith}
use fw.Db.Ft
use fw.Db.Span.{null}
use fw.Db.Field.{new_field}
use fw.Db.Settings.{clear_settings}
use fw.Db.Entry.{Entry, Db, blank_entry, bytes_eq}
use fw.Rmt.{RmtState}
use fw.Rmt.Access.{Ui, RdbState, rdop_ls, rdop_show, find_entry, shown}
use fw.Rmt.Access.Session.{link, access, asked}
use fw.Rmt.Access.Session.Fields.{visible}
use fw.Rmt.Access.Session.Responses.{Gives, show_blocks, rmt_db_poll-ls, rmt_db_poll-show}
use fw.Rmt.Access.Session.Secrets.{visible-IsPublicEq, is_secret}

-- It takes every request, and counts them.
abbrev ui : Ui
ui = record {
  State = ℕ;
  reveal = λ s a f binary. (true, s + 1);
  set_time = λ s t. (true, s + 1);
  time = λ s. 1000;
}

-- An entry with a user and a password.
abbrev cells : ℕ → Entry
cells a = record (blank_entry ((96 + a) ∷ [])) {
  fields =
      new_field Ft.id ((96 + a) ∷ [])
      ∷ new_field Ft.user (117 ∷ [])
      ∷ new_field Ft.pw (112 ∷ [])
      ∷ [];
}

abbrev accounts : Db ℕ
accounts = record {
  pool = record {
    stats = record {
      total = 64;
      erased = 0;
      deleted = 0;
      empty = 0;
      invalid = 0;
      error = 0;
      data_blocks = 2;
      special = 0;
    };
    erased = null;
    deleted = null;
    empty = null;
  };
  generation = 7;
  entries = 1 ∷ 2 ∷ [];
  dir = none;
  settings_block = none;
  settings = record { settings = clear_settings; have_settings = false; settings_seq = 0 };
  cell = cells;
  next = 3;
  medium = 0;
}

rmt_db_poll-ls_example :
    Gives ui [] accounts 3
      (asked ui [] accounts
        (rdop_ls ∷ [])
        (some (access RdbState.idle 0 0 [] [], link RmtState.idle true [] none, 0)))
      true
      0
      ((97 ∷ []) ∷ (98 ∷ []) ∷ [] ∷ [])
rmt_db_poll-ls_example =
    rmt_db_poll-ls ui [] accounts 0 0 [] [] true [] 0 (omega arith, (omega arith, tt))

found_second : find_entry cells (1 ∷ 2 ∷ []) (98 ∷ []) ≡ 2 ∷ []
unfolding find_entry bytes_eq
found_second = refl

rmt_db_poll-show_example :
    Gives ui [] accounts 3
      (asked ui [] accounts
        (rdop_show ∷ 98 ∷ [])
        (some (access RdbState.idle 0 0 [] [], link RmtState.idle true [] none, 0)))
      true
      0
      ((3 ∷ 117 ∷ []) ∷ (5 ∷ []) ∷ [] ∷ [])
unfolding find_entry bytes_eq show_blocks visible shown
rmt_db_poll-show_example =
    rmt_db_poll-show ui [] accounts 0 0 [] (98 ∷ []) [] true [] 0 (omega arith)
      (omega arith, omega arith, (omega arith, omega arith, (omega arith, omega arith, tt)))

-- Two passwords, and what the host is shown of them.
visible-IsPublicEq_example :
    visible (new_field Ft.user (117 ∷ []) ∷ new_field Ft.pw (112 ∷ []) ∷ [])
    ≡ visible (new_field Ft.user (117 ∷ []) ∷ new_field Ft.pw (113 ∷ 114 ∷ []) ∷ [])
unfolding is_secret
visible-IsPublicEq_example =
    visible-IsPublicEq (new_field Ft.user (117 ∷ []) ∷ new_field Ft.pw (112 ∷ []) ∷ [])
      (new_field Ft.user (117 ∷ []) ∷ new_field Ft.pw (113 ∷ 114 ∷ []) ∷ [])
      (refl, λ h. refl, (refl, λ h. absurd (ground arith), tt))
