-- ===== src/EtherCat/Command.antt =====
-- enum class Command of lib/include/kickcat/protocol.h.
use kick_cat.Base.{ℕ}

abbrev pub nop : ℕ
nop = 0

abbrev pub aprd : ℕ
aprd = 1

abbrev pub apwr : ℕ
apwr = 2

abbrev pub aprw : ℕ
aprw = 3

abbrev pub fprd : ℕ
fprd = 4

abbrev pub fpwr : ℕ
fpwr = 5

abbrev pub fprw : ℕ
fprw = 6

abbrev pub brd : ℕ
brd = 7

abbrev pub bwr : ℕ
bwr = 8

abbrev pub brw : ℕ
brw = 9

abbrev pub lrd : ℕ
lrd = 10

abbrev pub lwr : ℕ
lwr = 11

abbrev pub lrw : ℕ
lrw = 12

abbrev pub armw : ℕ
armw = 13

abbrev pub frmw : ℕ
frmw = 14
