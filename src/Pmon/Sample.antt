-- ===== src/Pmon/Sample.antt =====
-- A card in memory that follows the commands that write_block gives, for the tests.
use ucas_os.Common.{
  ℕ, zero, suc, ◌+◌, ◌*◌, ◌/◌, ◌%◌, ◌≤◌, ◌<◌, ◌≡◌, refl, arith, true, false, ◌==◌, ltb, leb, ◌&&◌,
  if◌then◌else◌, upd, Bool, ◌∙◌, ap,
}
use ucas_os.Pmon.{Bytes}
use ucas_os.Pmon.Card.{Firmware, send_command, send_data, busy_wait, write_block}
use ucas_os.Pmon.Transfers.{Stores, AreBytes}

-- the blocks, the block that command 24 has named, and the half words that have come since
pub record Sim : Type 0 where
  pub blocks : ℕ → ℕ → ℕ
  pub target : ℕ
  pub count : ℕ

-- a half word of the data
abbrev pub take_word : ℕ → Sim → Sim
take_word v d =
    if ltb d.count 256
    then record d {
      blocks =
          upd d.blocks d.target
            (upd (upd (d.blocks d.target) (2 * d.count) (v / 256)) (2 * d.count + 1) (v % 256));
      count = suc d.count;
    }
    else d

abbrev pub sim : Firmware Sim
sim = record {
  word = 0;
  new_sdcard_read = λ base n d i. 0;
  new_sdcard_write = λ base n b d. d;
  read_single_block = λ b d. d.blocks b;
  sd_cmd_write = λ c arg d. (0xff00, record d { target = arg });
  flash_writeb_cmd = λ v d. d;
  sd_write = λ v d. record d { count = 0 };
  sd_2byte_write = take_word;
  sd_read = λ d. (0xffff, d);
  set_cs = λ d. d;
}

taken :
    (t : ℕ) (w : Bytes) (d : Sim) (c i : ℕ)
    → d.count ≡ t
    → t < 256
    → AreBytes w
    → (take_word (w (2 * t) * 256 + w (2 * t + 1)) d).blocks c i
      ≡ (if (c == d.target) && (leb (2 * t) i && ltb i (2 * t + 2)) then w i else d.blocks c i)
taken t w d c i e lt bytes =
    let room : ltb d.count 256 ≡ true = ground (arith, e, lt) in
    let v : ℕ = w (2 * t) * 256 + w (2 * t + 1) in
    let high : v / 256 ≡ w (2 * t) = omega (arith, bytes (2 * t + 1)) in
    let low : v % 256 ≡ w (2 * t + 1) = omega (arith, bytes (2 * t + 1)) in
    rw (room, high, low) (rw e (stored c i))
  where
    stored :
        (c i : ℕ)
        → upd d.blocks d.target
            (upd (upd (d.blocks d.target) (2 * t) (w (2 * t))) (2 * t + 1) (w (2 * t + 1)))
            c
            i
          ≡ (if (c == d.target) && (leb (2 * t) i && ltb i (2 * t + 2)) then w i else d.blocks c i)
    stored c i = ground arith

taken_rest :
    (v : ℕ) (d : Sim)
    → d.count < 256
    → ((take_word v d).target ≡ d.target) × ((take_word v d).count ≡ suc d.count)
taken_rest v d lt = let room : ltb d.count 256 ≡ true = ground arith in (rw room, rw room)

join :
    (x : Bool) (t n i a b : ℕ)
    → (if x && (leb (2 * suc t) i && ltb i (2 * suc t + 2 * n))
        then a
        else (if x && (leb (2 * t) i && ltb i (2 * t + 2)) then a else b))
      ≡ (if x && (leb (2 * t) i && ltb i (2 * t + 2 * suc n)) then a else b)
join true t n i a b = ground arith
join false t n i a b = refl

-- `n` half words from the `t`-th on
send_data_lem :
    (n t : ℕ) (w : Bytes) (d : Sim)
    → d.count ≡ t
    → t + n ≤ 256
    → AreBytes w
    → (c i : ℕ)
    → (send_data sim n t w d).blocks c i
      ≡ (if (c == d.target) && (leb (2 * t) i && ltb i (2 * t + 2 * n)) then w i else d.blocks c i)
unfolding send_data
send_data_lem zero t w d e le bytes c i = none_sent (c == d.target)
  where
    none_sent :
        (x : Bool)
        → d.blocks c i
          ≡ (if x && (leb (2 * t) i && ltb i (2 * t + 2 * 0)) then w i else d.blocks c i)
    none_sent true = ground arith
    none_sent false = refl
send_data_lem (suc n) t w d e le bytes c i =
    let v : ℕ = w (2 * t) * 256 + w (2 * t + 1) in
    let (same, more) = taken_rest v d (omega (arith, e, le)) in
    send_data_lem n (suc t) w (take_word v d) (more ∙ ap suc e) (omega (arith, le)) bytes c i
    ∙ (rw (same, taken t w d c i e (omega (arith, le)) bytes)
        (join (c == d.target) t n i (w i) (d.blocks c i)))

pub sim-Stores : Stores sim 1 (λ d. d.blocks)
sim-Stores = record {
  read = λ b d i lt. refl;
  write = λ b w d bytes. (
    0xffff,
    send_data sim 256 0 w (record d { target = b; count = 0 }),
    unfold write_block send_command busy_wait send_data in refl,
    λ c i lt.
        send_data_lem 256 0 w (record d { target = b; count = 0 }) refl (omega arith) bytes c i
        ∙ (whole (c == b) i (w i) (d.blocks c i) lt),
  );
}
  where
    whole :
        (x : Bool) (i a b : ℕ)
        → i < 512
        → (if x && (leb 0 i && ltb i 512) then a else b) ≡ (if x then a else b)
    whole true i a b lt = ground arith
    whole false i a b lt = refl
