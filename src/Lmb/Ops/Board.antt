-- ===== src/Lmb/Ops/Board.antt =====
-- The tables of a board with one bank of memory, for the tests.
use shield_tv_loader.Base.{ℕ, Option, some, none, arith, ◌==◌, if◌then◌else◌}
use shield_tv_loader.Lmb.{
  LmbProperty, LmbRegion, Lmb, lmb_boot, lmb_runtime, lmb_free_type, lmb_tag,
}
use shield_tv_loader.Lmb.Sorted.{IsWf}

abbrev pub ramr : ℕ
ramr = lmb_tag b'R' b'A' b'M' b'R'

abbrev pub fbmm : ℕ
fbmm = lmb_tag b'F' b'B' b'M' b'M'

abbrev pub blank : LmbProperty
blank = record { base = 0; size = 0; tag = 0; type = 0 }

abbrev pub empty_lmb : Lmb
empty_lmb = record {
  memory = record { cnt = 0; region = λ _. blank };
  reserved = record { cnt = 0; region = λ _. blank };
}

-- One bank of memory, with the frame buffer and a page above it reserved.
abbrev pub bank : LmbProperty
bank = record { base = 0x8000_0000; size = 0x4000_0000; tag = ramr; type = lmb_free_type }

abbrev pub frame_buffer : LmbProperty
frame_buffer = record { base = 0x92ca_6000; size = 0x7e_9000; tag = fbmm; type = lmb_runtime }

abbrev pub page : LmbProperty
page = record { base = 0xa000_0000; size = 0x1000; tag = ramr; type = lmb_boot }

abbrev pub board : Lmb
board = record {
  memory = record { cnt = 1; region = λ _. bank };
  reserved = record { cnt = 2; region = λ j. if j == 0 then frame_buffer else page };
}

pub board_memory-IsWf : IsWf board.memory
board_memory-IsWf = record {
  nonempty = omega arith;
  room = omega arith;
  sorted = record { solid = λ i h. omega arith; ordered = λ i h. absurd (omega arith) };
}

pub board_reserved-IsWf : IsWf board.reserved
board_reserved-IsWf = record {
  nonempty = omega arith;
  room = omega arith;
  sorted = record { solid = λ i h. ground arith; ordered = λ i h. ground arith };
}

-- The state after an allocation.
abbrev pub after : Lmb → Option (ℕ × Lmb) → Lmb
after lmb none = lmb
after lmb (some (addr, lmb')) = lmb'

abbrev pub addr_of : Option (ℕ × Lmb) → ℕ
addr_of none = 0
addr_of (some (addr, lmb')) = addr

abbrev pub fbrq : ℕ
fbrq = lmb_tag b'F' b'B' b'R' b'Q'

abbrev pub three : LmbRegion
three = record {
  cnt = 2;
  region = λ j. if j == 0 then page else record page { base = 0xa000_1000 };
}

pub three-IsWf : IsWf three
three-IsWf = record {
  nonempty = omega arith;
  room = omega arith;
  sorted = record { solid = λ i h. ground arith; ordered = λ i h. ground arith };
}
