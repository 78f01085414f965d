-- ===== src/Vm.antt =====
-- nl-vm.h and nl-vm.c: the bytecode compiler and the virtual machine.
pub mod Opcode
pub mod Cell
pub mod State
pub mod Forms
pub mod Compile
pub mod Lambda
pub mod Growth
pub mod Scope
pub mod Bindings
pub mod Failure
pub mod Machine
pub mod Step
pub mod Jumps
pub mod Locals
pub mod TailCalls
pub mod Superinstructions
pub mod Steps
pub mod Arithmetic
mod Tests
