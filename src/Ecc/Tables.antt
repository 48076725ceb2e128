-- ===== src/Ecc/Tables.antt =====
-- The tables of the field GF(2^8) in src/libchdr_cdrom.c.
use libchdr.Prelude.{ℕ, List, [], ◌∷◌}

abbrev pub ecclow : List ℕ
ecclow =
    0x00 ∷ 0x02 ∷ 0x04 ∷ 0x06 ∷ 0x08 ∷ 0x0a ∷ 0x0c ∷ 0x0e ∷ 0x10 ∷ 0x12 ∷ 0x14 ∷ 0x16 ∷ 0x18 ∷ 0x1a
    ∷ 0x1c ∷ 0x1e ∷ 0x20 ∷ 0x22 ∷ 0x24 ∷ 0x26 ∷ 0x28 ∷ 0x2a ∷ 0x2c ∷ 0x2e ∷ 0x30 ∷ 0x32 ∷ 0x34
    ∷ 0x36 ∷ 0x38 ∷ 0x3a ∷ 0x3c ∷ 0x3e ∷ 0x40 ∷ 0x42 ∷ 0x44 ∷ 0x46 ∷ 0x48 ∷ 0x4a ∷ 0x4c ∷ 0x4e
    ∷ 0x50 ∷ 0x52 ∷ 0x54 ∷ 0x56 ∷ 0x58 ∷ 0x5a ∷ 0x5c ∷ 0x5e ∷ 0x60 ∷ 0x62 ∷ 0x64 ∷ 0x66 ∷ 0x68
    ∷ 0x6a ∷ 0x6c ∷ 0x6e ∷ 0x70 ∷ 0x72 ∷ 0x74 ∷ 0x76 ∷ 0x78 ∷ 0x7a ∷ 0x7c ∷ 0x7e ∷ 0x80 ∷ 0x82
    ∷ 0x84 ∷ 0x86 ∷ 0x88 ∷ 0x8a ∷ 0x8c ∷ 0x8e ∷ 0x90 ∷ 0x92 ∷ 0x94 ∷ 0x96 ∷ 0x98 ∷ 0x9a ∷ 0x9c
    ∷ 0x9e ∷ 0xa0 ∷ 0xa2 ∷ 0xa4 ∷ 0xa6 ∷ 0xa8 ∷ 0xaa ∷ 0xac ∷ 0xae ∷ 0xb0 ∷ 0xb2 ∷ 0xb4 ∷ 0xb6
    ∷ 0xb8 ∷ 0xba ∷ 0xbc ∷ 0xbe ∷ 0xc0 ∷ 0xc2 ∷ 0xc4 ∷ 0xc6 ∷ 0xc8 ∷ 0xca ∷ 0xcc ∷ 0xce ∷ 0xd0
    ∷ 0xd2 ∷ 0xd4 ∷ 0xd6 ∷ 0xd8 ∷ 0xda ∷ 0xdc ∷ 0xde ∷ 0xe0 ∷ 0xe2 ∷ 0xe4 ∷ 0xe6 ∷ 0xe8 ∷ 0xea
    ∷ 0xec ∷ 0xee ∷ 0xf0 ∷ 0xf2 ∷ 0xf4 ∷ 0xf6 ∷ 0xf8 ∷ 0xfa ∷ 0xfc ∷ 0xfe ∷ 0x1d ∷ 0x1f ∷ 0x19
    ∷ 0x1b ∷ 0x15 ∷ 0x17 ∷ 0x11 ∷ 0x13 ∷ 0x0d ∷ 0x0f ∷ 0x09 ∷ 0x0b ∷ 0x05 ∷ 0x07 ∷ 0x01 ∷ 0x03
    ∷ 0x3d ∷ 0x3f ∷ 0x39 ∷ 0x3b ∷ 0x35 ∷ 0x37 ∷ 0x31 ∷ 0x33 ∷ 0x2d ∷ 0x2f ∷ 0x29 ∷ 0x2b ∷ 0x25
    ∷ 0x27 ∷ 0x21 ∷ 0x23 ∷ 0x5d ∷ 0x5f ∷ 0x59 ∷ 0x5b ∷ 0x55 ∷ 0x57 ∷ 0x51 ∷ 0x53 ∷ 0x4d ∷ 0x4f
    ∷ 0x49 ∷ 0x4b ∷ 0x45 ∷ 0x47 ∷ 0x41 ∷ 0x43 ∷ 0x7d ∷ 0x7f ∷ 0x79 ∷ 0x7b ∷ 0x75 ∷ 0x77 ∷ 0x71
    ∷ 0x73 ∷ 0x6d ∷ 0x6f ∷ 0x69 ∷ 0x6b ∷ 0x65 ∷ 0x67 ∷ 0x61 ∷ 0x63 ∷ 0x9d ∷ 0x9f ∷ 0x99 ∷ 0x9b
    ∷ 0x95 ∷ 0x97 ∷ 0x91 ∷ 0x93 ∷ 0x8d ∷ 0x8f ∷ 0x89 ∷ 0x8b ∷ 0x85 ∷ 0x87 ∷ 0x81 ∷ 0x83 ∷ 0xbd
    ∷ 0xbf ∷ 0xb9 ∷ 0xbb ∷ 0xb5 ∷ 0xb7 ∷ 0xb1 ∷ 0xb3 ∷ 0xad ∷ 0xaf ∷ 0xa9 ∷ 0xab ∷ 0xa5 ∷ 0xa7
    ∷ 0xa1 ∷ 0xa3 ∷ 0xdd ∷ 0xdf ∷ 0xd9 ∷ 0xdb ∷ 0xd5 ∷ 0xd7 ∷ 0xd1 ∷ 0xd3 ∷ 0xcd ∷ 0xcf ∷ 0xc9
    ∷ 0xcb ∷ 0xc5 ∷ 0xc7 ∷ 0xc1 ∷ 0xc3 ∷ 0xfd ∷ 0xff ∷ 0xf9 ∷ 0xfb ∷ 0xf5 ∷ 0xf7 ∷ 0xf1 ∷ 0xf3
    ∷ 0xed ∷ 0xef ∷ 0xe9 ∷ 0xeb ∷ 0xe5 ∷ 0xe7 ∷ 0xe1 ∷ 0xe3 ∷ []

abbrev pub ecchigh : List ℕ
ecchigh =
    0x00 ∷ 0xf4 ∷ 0xf5 ∷ 0x01 ∷ 0xf7 ∷ 0x03 ∷ 0x02 ∷ 0xf6 ∷ 0xf3 ∷ 0x07 ∷ 0x06 ∷ 0xf2 ∷ 0x04 ∷ 0xf0
    ∷ 0xf1 ∷ 0x05 ∷ 0xfb ∷ 0x0f ∷ 0x0e ∷ 0xfa ∷ 0x0c ∷ 0xf8 ∷ 0xf9 ∷ 0x0d ∷ 0x08 ∷ 0xfc ∷ 0xfd
    ∷ 0x09 ∷ 0xff ∷ 0x0b ∷ 0x0a ∷ 0xfe ∷ 0xeb ∷ 0x1f ∷ 0x1e ∷ 0xea ∷ 0x1c ∷ 0xe8 ∷ 0xe9 ∷ 0x1d
    ∷ 0x18 ∷ 0xec ∷ 0xed ∷ 0x19 ∷ 0xef ∷ 0x1b ∷ 0x1a ∷ 0xee ∷ 0x10 ∷ 0xe4 ∷ 0xe5 ∷ 0x11 ∷ 0xe7
    ∷ 0x13 ∷ 0x12 ∷ 0xe6 ∷ 0xe3 ∷ 0x17 ∷ 0x16 ∷ 0xe2 ∷ 0x14 ∷ 0xe0 ∷ 0xe1 ∷ 0x15 ∷ 0xcb ∷ 0x3f
    ∷ 0x3e ∷ 0xca ∷ 0x3c ∷ 0xc8 ∷ 0xc9 ∷ 0x3d ∷ 0x38 ∷ 0xcc ∷ 0xcd ∷ 0x39 ∷ 0xcf ∷ 0x3b ∷ 0x3a
    ∷ 0xce ∷ 0x30 ∷ 0xc4 ∷ 0xc5 ∷ 0x31 ∷ 0xc7 ∷ 0x33 ∷ 0x32 ∷ 0xc6 ∷ 0xc3 ∷ 0x37 ∷ 0x36 ∷ 0xc2
    ∷ 0x34 ∷ 0xc0 ∷ 0xc1 ∷ 0x35 ∷ 0x20 ∷ 0xd4 ∷ 0xd5 ∷ 0x21 ∷ 0xd7 ∷ 0x23 ∷ 0x22 ∷ 0xd6 ∷ 0xd3
    ∷ 0x27 ∷ 0x26 ∷ 0xd2 ∷ 0x24 ∷ 0xd0 ∷ 0xd1 ∷ 0x25 ∷ 0xdb ∷ 0x2f ∷ 0x2e ∷ 0xda ∷ 0x2c ∷ 0xd8
    ∷ 0xd9 ∷ 0x2d ∷ 0x28 ∷ 0xdc ∷ 0xdd ∷ 0x29 ∷ 0xdf ∷ 0x2b ∷ 0x2a ∷ 0xde ∷ 0x8b ∷ 0x7f ∷ 0x7e
    ∷ 0x8a ∷ 0x7c ∷ 0x88 ∷ 0x89 ∷ 0x7d ∷ 0x78 ∷ 0x8c ∷ 0x8d ∷ 0x79 ∷ 0x8f ∷ 0x7b ∷ 0x7a ∷ 0x8e
    ∷ 0x70 ∷ 0x84 ∷ 0x85 ∷ 0x71 ∷ 0x87 ∷ 0x73 ∷ 0x72 ∷ 0x86 ∷ 0x83 ∷ 0x77 ∷ 0x76 ∷ 0x82 ∷ 0x74
    ∷ 0x80 ∷ 0x81 ∷ 0x75 ∷ 0x60 ∷ 0x94 ∷ 0x95 ∷ 0x61 ∷ 0x97 ∷ 0x63 ∷ 0x62 ∷ 0x96 ∷ 0x93 ∷ 0x67
    ∷ 0x66 ∷ 0x92 ∷ 0x64 ∷ 0x90 ∷ 0x91 ∷ 0x65 ∷ 0x9b ∷ 0x6f ∷ 0x6e ∷ 0x9a ∷ 0x6c ∷ 0x98 ∷ 0x99
    ∷ 0x6d ∷ 0x68 ∷ 0x9c ∷ 0x9d ∷ 0x69 ∷ 0x9f ∷ 0x6b ∷ 0x6a ∷ 0x9e ∷ 0x40 ∷ 0xb4 ∷ 0xb5 ∷ 0x41
    ∷ 0xb7 ∷ 0x43 ∷ 0x42 ∷ 0xb6 ∷ 0xb3 ∷ 0x47 ∷ 0x46 ∷ 0xb2 ∷ 0x44 ∷ 0xb0 ∷ 0xb1 ∷ 0x45 ∷ 0xbb
    ∷ 0x4f ∷ 0x4e ∷ 0xba ∷ 0x4c ∷ 0xb8 ∷ 0xb9 ∷ 0x4d ∷ 0x48 ∷ 0xbc ∷ 0xbd ∷ 0x49 ∷ 0xbf ∷ 0x4b
    ∷ 0x4a ∷ 0xbe ∷ 0xab ∷ 0x5f ∷ 0x5e ∷ 0xaa ∷ 0x5c ∷ 0xa8 ∷ 0xa9 ∷ 0x5d ∷ 0x58 ∷ 0xac ∷ 0xad
    ∷ 0x59 ∷ 0xaf ∷ 0x5b ∷ 0x5a ∷ 0xae ∷ 0x50 ∷ 0xa4 ∷ 0xa5 ∷ 0x51 ∷ 0xa7 ∷ 0x53 ∷ 0x52 ∷ 0xa6
    ∷ 0xa3 ∷ 0x57 ∷ 0x56 ∷ 0xa2 ∷ 0x54 ∷ 0xa0 ∷ 0xa1 ∷ 0x55 ∷ []
