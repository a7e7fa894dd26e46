-- ===== src/Printf/Pieces/Examples.antt =====
-- A format with a width of each kind, and with precisions.
use bios_qemu_tz_arm.Prelude.{◌-◌, ◌^◌, ◌≡◌, arith, List, [], ◌∷◌, ◌++◌, some, codes}
use bios_qemu_tz_arm.Run.{ok}
use bios_qemu_tz_arm.Printf.Args.{word, bytes}
use bios_qemu_tz_arm.Printf.Format.{kprintf}
use bios_qemu_tz_arm.Printf.Format.{put_text}
use bios_qemu_tz_arm.Printf.Format.Sink.{text_sink}
use bios_qemu_tz_arm.Printf.Values.{signed, hex, string, limited, least, numeral}
use bios_qemu_tz_arm.Printf.Pieces.{
  Piece, plain, converted, blanks, left, zeros, unpadded, format, arguments, text, ArePieces,
}
use bios_qemu_tz_arm.Printf.Pieces.Whole.{kprintf-Pieces}

abbrev pieces : List Piece
pieces =
    converted (blanks 5) (signed (2 ^ 32 - 42))
    ∷ plain (b'|')
    ∷ converted (left 4) (hex 0xab)
    ∷ plain (b'|')
    ∷ converted (zeros 8) (hex 0xbeef)
    ∷ plain (b' ')
    ∷ converted unpadded (string (codes "hi") (7 ∷ []))
    ∷ converted (zeros 5) (least 3 7)
    ∷ converted (blanks 6) (limited 3 (codes "abc") (codes "def"))
    ∷ []

pieces-ArePieces : ArePieces pieces
pieces-ArePieces = ground arith

kprintf-Pieces_example :
    kprintf text_sink
      (codes "%5d|%-4x|%08x %s%05.3d%6.3s")
      (word (2 ^ 32 - 42)
        ∷ word 0xab
        ∷ word 0xbeef
        ∷ bytes (some (codes "hi" ++ 0 ∷ 7 ∷ []))
        ∷ word 7
        ∷ bytes (some (codes "abcdef"))
        ∷ [])
      []
    ≡ ok (record {
      sink = put_text text_sink (codes "  -42|ab  |0000beef hi  007   abc") [];
      ret = 33;
      stored = [];
    })
unfolding format arguments text numeral
kprintf-Pieces_example = kprintf-Pieces text_sink pieces [] pieces-ArePieces (omega arith)
