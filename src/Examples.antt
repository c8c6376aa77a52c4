-- ===== src/Examples.antt =====
-- An environment, a stream and packets on which the code is run.
mod Data
mod Lossy
mod Stream
mod Figures
mod Devices
mod Options
mod Whole
mod Air
mod Ends
mod Lines
mod Overrun
mod Program
mod Strangers
mod Parts
