-- ===== src/Cli.antt =====
-- The options of the command line (cli/*.py and the functions of utils/utils.py that read them).
pub mod Options
pub mod Commands
pub mod Index
pub mod Display
