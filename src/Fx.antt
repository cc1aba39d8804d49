-- ===== src/Fx.antt =====
-- fx/: conversion of money, exchange rates and currency metadata.
pub mod Money
pub mod Conversion
pub mod Service
