-- ===== src/Vm/Cell.antt =====
-- `CELL` and `SYMBOL` of newlisp.h, as far as the compiler and the machine look into them.
use Prim.Native.String.{String}
use newlisp_neo.Prelude.{ℕ, Bool}

-- A symbol. `address` stands for the pointer, by which symbols are compared; `fexpr` says that
-- `sym->contents` points to a cell of type CELL_FEXPR.
pub record Symbol : Type 0 where
  pub address : ℕ
  pub name : String
  pub flags : ℕ
  pub fexpr : Bool

-- A cell by its type; a list is the chain of the cells' `next`, which `nilCell` ends. The contents
-- of a CELL_LONG is the 64-bit word of its INT, that of a CELL_FLOAT the bits of the double.
mutual
  pub data Cell : Type 0 where
    nil : Cell
    true_cell : Cell
    long : ℕ → Cell
    float : ℕ → Cell
    string : String → Cell
    quote : Cell → Cell
    symbol : Symbol → Cell
    expression : Cells → Cell
    lambda : Cells → Cell
    -- any other type, such as a primitive, a context or an array
    other : ℕ → Cell

  pub data Cells : Type 0 where
    end : Cells
    cons : Cell → Cells → Cells
