-- ===== src/Lib.antt =====
-- Sunela firmware: models of its core logic, and theorems about them.
--
-- The device keeps accounts in a database on flash memory, and talks to a host and to its user.
-- * Db models db/: Db.Span the lists of blocks (span.c); Db.Field, Db.Payload, Db.Sort and Db.Alloc
--   parts of db.c: the fields of an entry, their coding in a block, the sort of the entries by their
--   `prev` pointers (db_tsort), and the allocation of blocks (get_erased_block); Db.Special is its
--   use for the settings (db_update_settings). Db.Entry has the entries, the state of the whole
--   database (struct db with the heap), and the changes of an entry, each of which moves it to a new
--   block (db_change_field, db_delete_field, db_entry_defer_update, update_entry); Db.Tree the tree of
--   directories (db_new_entry, db_delete_entry, db_rename, db_mkdir, db_chdir, fix_virtual); Db.Move
--   the reordering (db_move_after, db_move_before); Db.Open the opening (db_open_progress), which
--   reads all blocks. Db.Ft holds the types of fields, Db.Store the pool of blocks and the medium
--   (storage.h), which is a parameter; Db.StorageFile models the one in a file
--   (storage-file.c); Db.Block models block.c, the reading and writing of
--   blocks, and Db.Crypt dbcrypt.c, their encryption for several readers; Db.Settings models
--   settings.c; Db.Secrets the master secret and the pads that hide it, one for a PIN (secrets.c);
--   Db.Pin models pin.c: the failed attempts, the number pad, and in Db.Pin.Check the check and the
--   change of a PIN, which stand on Db.Secrets.
-- * Crypto.Base32 models crypto/base32.c, Crypto.Hotp crypto/hotp.c and crypto/hmac.c.
-- * Fmt models the printing of numbers in lib/fmt.c.
-- * Sys models sys/: Sys.Mbox the mailboxes (mbox.c), Sys.Timer the timers (timer.c).
-- * Rmt models rmt/rmt.c, the protocol that passes requests and responses through two mailboxes;
--   Rmt.Access models rmt/rmt-db.c, the state machine that serves requests for the list of accounts,
--   for the fields of one and for the time; it uses Rmt and the entries of Db. Rmt.Access.Session has
--   runs in which polls of the device and queries of the host take turns.
-- * Imath models lib/imath.c, the integer square root.
-- * Bip39 models lib/bip39: bip39in.c, the input of mnemonic words on the number pad, and in
--   Bip39.Codec bip39enc.c and bip39dec.c, the words of some bytes and the bytes of some words.
-- * Ui.Stack models the stack of pages of ui/ui.c, and Ui.Power the button and what turns the device
--   on and off.
-- * Ui.Touch models what ui/ui.c makes of touches, and Ui.Touch.Gesture what a page sees of them.
-- * Base holds the names, tests and lemmas that all of them share.
-- Lists linked by pointers are lists, and a cell that was freed is a constructor of its own where
-- the code can leave a pointer to it. A function has the name of the C function, or a name of its
-- own if it stands for a part of one. Unsigned numbers are natural numbers with the wrap-around
-- written out. A failed assertion and an access to freed memory are results of their own.
--
-- Fuel: db_tsort gets twice as many rounds as there are entries and one more, since each round takes
-- an entry out, or breaks a cycle so that the next one does; get_erased_block gets one more than
-- there are blocks to erase; timer_tick one more than there are timers; isqrt 17 rounds, one more
-- than there are bits of the root; settings_process one more than there are bytes of the record;
-- bip39_next_word 12 rounds, one more than a word has bits; do_print_number 64 rounds, the most digits
-- that a number of 64 bits has.
-- Theorems below say that this is enough. The walks over the tree of directories get its depth as
-- fuel, and db_move_after the number of rounds, which no bound suffices for.
--
-- Not modelled: the pages of the user interface, drawing, and the drivers, which are input and output;
-- TweetNaCl, which is third-party code, and the hash functions, which call the hardware or a library.
-- Parameters are: what the user interface does with a request of the host, the storage, the hash
-- functions, the product of curve points behind the secrets, the functions of NaCl,
-- the table of words, random bytes, and, where a PIN is checked, whether a block can be decrypted.
pub mod Base
pub mod Db
pub mod Crypto
pub mod Sys
pub mod Rmt
pub mod Imath
pub mod Bip39
pub mod Ui
pub mod Fmt
